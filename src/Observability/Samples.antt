-- ===== src/Observability/Samples.antt =====
-- The window of the latest latencies, of client/app/services/observability.server.ts.
use history_quiz.Prelude.{
  ℕ, zero, suc, ◌-◌, ◌≤◌, ◌<◌, ◌≡◌, refl, sym, false, List, [], ◌∷◌, ◌++◌, length, drop,
  length-append, ltb, nat_eq, if◌then◌else◌, arith, Bool-cases, inl, inr,
}

-- appendLatencySample
unfoldable pub append_latency_sample : List ℕ → ℕ → ℕ → List ℕ
append_latency_sample samples latency_ms max_samples =
    if nat_eq max_samples 0
    then latency_ms ∷ []
    else if ltb (length samples) max_samples
    then samples ++ latency_ms ∷ []
    else drop 1 samples ++ latency_ms ∷ []

-- The last `k` elements.
abbrev pub last_of : ℕ → List ℕ → List ℕ
last_of k xs = drop (length xs - k) xs

length-drop : (n : ℕ) (xs : List ℕ) → length (drop n xs) ≡ length xs - n
length-drop zero xs = omega arith
length-drop (suc n) [] = omega arith
length-drop (suc n) (x ∷ xs) = omega (arith, length-drop n xs)

drop-drop : (n : ℕ) (xs : List ℕ) → drop 1 (drop n xs) ≡ drop (suc n) xs
drop-drop zero [] = refl
drop-drop zero (x ∷ xs) = refl
drop-drop (suc n) [] = refl
drop-drop (suc n) (x ∷ xs) = drop-drop n xs

drop-append : (n : ℕ) (xs ys : List ℕ) → n ≤ length xs → drop n (xs ++ ys) ≡ drop n xs ++ ys
drop-append zero xs ys h = refl
drop-append (suc n) [] ys h = absurd (omega arith)
drop-append (suc n) (x ∷ xs) ys h = drop-append n xs ys (omega arith)

-- If the window holds the last `k` latencies, then after one more latency it again holds the last
-- `k`, for a size above 0.
pub append_latency_sample-last_of :
    (k x : ℕ) (history : List ℕ)
    → 0 < k
    → append_latency_sample (last_of k history) x k ≡ last_of k (history ++ x ∷ [])
unfolding append_latency_sample
append_latency_sample-last_of k x history h =
    let nonzero : nat_eq k 0 ≡ false = ground arith in
    let n = length history in
    let size = length-append history (x ∷ []) in
    elim (Bool-cases (ltb n k)) [
      | inl e ↦
          let none_old : n - k ≡ 0 = ground arith in
          let none_new : length (history ++ x ∷ []) - k ≡ 0 = ground (arith, size) in
          rw (nonzero, none_old, none_new, e)
      | inr e ↦
          let full : ltb (length (last_of k history)) k ≡ false =
            ground (arith, length-drop (n - k) history) in
          let next : length (history ++ x ∷ []) - k ≡ suc (n - k) = ground (arith, size) in
          rw (nonzero, full, next, drop-drop (n - k) history)
            (sym (drop-append (suc (n - k)) history (x ∷ []) (ground arith)))
    ]
