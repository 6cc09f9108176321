-- ===== src/Observability/Percentile.antt =====
-- The 95th percentile of the latencies, of client/app/services/observability.server.ts.
use Prim.Native.Nat.{min}
use history_quiz.Prelude.{
  ℕ, zero, suc, ◌+◌, ◌-◌, ◌*◌, ◌/◌, ◌≤◌, ◌<◌, ◌≡◌, ◌⊎◌, refl, ap, ◌∙◌, List, [], ◌∷◌, length, All,
  leb, if◌then◌else◌, arith, Bool-cases, inl, inr,
}

insert_sample : ℕ → List ℕ → List ℕ
insert_sample x [] = x ∷ []
insert_sample x (y ∷ ys) = let rest = insert_sample x ys in if leb x y then x ∷ y ∷ ys else y ∷ rest

-- [...samples].sort((a, b) => a - b)
unfoldable pub sort_samples : List ℕ → List ℕ
unfolding insert_sample
sort_samples [] = []
sort_samples (x ∷ xs) = insert_sample x (sort_samples xs)

abbrev pub get_or : List ℕ → ℕ → ℕ → ℕ
get_or [] i d = d
get_or (x ∷ xs) zero d = x
get_or (x ∷ xs) (suc i) d = get_or xs i d

-- calculateP95. For windows of less than 2000 samples, Math.ceil(n * 0.95) over doubles is the
-- rounded-up quotient that stands here.
unfoldable pub calculate_p95 : List ℕ → ℕ
calculate_p95 [] = 0
calculate_p95 (x ∷ xs) =
    let sorted = sort_samples (x ∷ xs) in
    let index = (length sorted * 95 + 99) / 100 - 1 in
    get_or sorted (min index (length sorted - 1)) 0

-- How many samples are at most `v`.
abbrev pub count_le : ℕ → List ℕ → ℕ
count_le v [] = 0
count_le v (x ∷ xs) = if leb x v then suc (count_le v xs) else count_le v xs

abbrev IsSorted : List ℕ → Type 0
IsSorted [] = Unit
IsSorted (x ∷ xs) = All (λ y. x ≤ y) xs × IsSorted xs

All-le : (x y : ℕ) (ys : List ℕ) → x ≤ y → All (λ z. y ≤ z) ys → All (λ z. x ≤ z) ys
All-le x y [] h a = tt
All-le x y (z ∷ ys) h (p, a) = (omega arith, All-le x y ys h a)

All-insert_sample :
    (b x : ℕ) (ys : List ℕ) → b ≤ x → All (λ z. b ≤ z) ys → All (λ z. b ≤ z) (insert_sample x ys)
unfolding insert_sample
All-insert_sample b x [] h a = (h, tt)
All-insert_sample b x (y ∷ ys) h (p, a) = elim (Bool-cases (leb x y)) [
  | inl e ↦ rw e (h, (p, a))
  | inr e ↦ rw e (p, All-insert_sample b x ys h a)
]

insert_sample-IsSorted : (x : ℕ) (ys : List ℕ) → IsSorted ys → IsSorted (insert_sample x ys)
unfolding insert_sample
insert_sample-IsSorted x [] s = (tt, tt)
insert_sample-IsSorted x (y ∷ ys) (a, s) = elim (Bool-cases (leb x y)) [
  | inl e ↦ rw e ((ground arith, All-le x y ys (ground arith) a), (a, s))
  | inr e ↦ rw e (All-insert_sample y x ys (ground arith) a, insert_sample-IsSorted x ys s)
]

sort_samples-IsSorted : (xs : List ℕ) → IsSorted (sort_samples xs)
unfolding sort_samples
sort_samples-IsSorted [] = tt
sort_samples-IsSorted (x ∷ xs) =
    insert_sample-IsSorted x (sort_samples xs) (sort_samples-IsSorted xs)

count_le-insert_sample :
    (v x : ℕ) (ys : List ℕ) → count_le v (insert_sample x ys) ≡ count_le v (x ∷ ys)
unfolding insert_sample
count_le-insert_sample v x [] = refl
count_le-insert_sample v x (y ∷ ys) = ground (arith, count_le-insert_sample v x ys)

count_le-sort_samples : (v : ℕ) (xs : List ℕ) → count_le v (sort_samples xs) ≡ count_le v xs
unfolding sort_samples
count_le-sort_samples v [] = refl
count_le-sort_samples v (x ∷ xs) =
    ground (arith, count_le-insert_sample v x (sort_samples xs), count_le-sort_samples v xs)

length-insert_sample : (x : ℕ) (ys : List ℕ) → length (insert_sample x ys) ≡ suc (length ys)
unfolding insert_sample
length-insert_sample x [] = refl
length-insert_sample x (y ∷ ys) = ground (arith, length-insert_sample x ys)

length-sort_samples : (xs : List ℕ) → length (sort_samples xs) ≡ length xs
unfolding sort_samples
length-sort_samples [] = refl
length-sort_samples (x ∷ xs) =
    length-insert_sample x (sort_samples xs) ∙ ap suc (length-sort_samples xs)

get_or-ge : (b : ℕ) (xs : List ℕ) (i : ℕ) → All (λ y. b ≤ y) xs → i < length xs → b ≤ get_or xs i 0
get_or-ge b [] i a h = absurd (omega arith)
get_or-ge b (x ∷ xs) zero (p, a) h = p
get_or-ge b (x ∷ xs) (suc i) (p, a) h = get_or-ge b xs i a (omega arith)

count_le-zero : (v : ℕ) (xs : List ℕ) → All (λ y. v < y) xs → count_le v xs ≡ 0
count_le-zero v [] a = refl
count_le-zero v (x ∷ xs) (p, a) = ground (arith, count_le-zero v xs a)

-- In a sorted list the element at `i` has at least i + 1 elements at most it, and a smaller value
-- has at most i of them.
rank_lower : (xs : List ℕ) (i : ℕ) → IsSorted xs → i < length xs → i < count_le (get_or xs i 0) xs
rank_lower [] i s h = absurd (omega arith)
rank_lower (x ∷ xs) zero (a, s) h = ground arith
rank_lower (x ∷ xs) (suc i) (a, s) h =
    let low = get_or-ge x xs i a (omega arith) in
    let ih = rank_lower xs i s (omega arith) in ground arith

rank_upper :
    (v : ℕ) (xs : List ℕ) (i : ℕ)
    → IsSorted xs
    → i < length xs
    → v < get_or xs i 0
    → count_le v xs ≤ i
rank_upper v [] i s h k = absurd (omega arith)
rank_upper v (x ∷ xs) zero (a, s) h k =
    let none_below = count_le-zero v xs (All-le (suc v) x xs k a) in ground arith
rank_upper v (x ∷ xs) (suc i) (a, s) h k =
    let ih = rank_upper v xs i s (omega arith) k in ground arith

index_of : ℕ → ℕ
index_of n = min ((n * 95 + 99) / 100 - 1) (n - 1)

index_facts :
    (n : ℕ)
    → 0 < n
    → (index_of n < n) × (n * 95 ≤ suc (index_of n) * 100) × (index_of n * 100 < n * 95)
unfolding index_of
index_facts n h = omega arith

ranked :
    (s : List ℕ) (v : ℕ)
    → IsSorted s
    → 0 < length s
    → (length s * 95 ≤ count_le (get_or s (index_of (length s)) 0) s * 100)
      × ((get_or s (index_of (length s)) 0 ≤ v) ⊎ (count_le v s * 100 < length s * 95))
ranked s v sorted h =
    let i = index_of (length s) in
    let (below, covers, tight) = index_facts (length s) h in
    let lower = rank_lower s i sorted below in
    (
      omega arith,
      elim (Bool-cases (leb (get_or s i 0) v)) [
        | inl e ↦ inl (ground arith)
        | inr e ↦ let upper = rank_upper v s i sorted below (ground arith) in inr (omega arith)
      ],
    )

-- The p95 of a window with a sample is a latency that at least 95% of the samples do not exceed,
-- and the least such: fewer than 95% of the samples are at most any smaller value `v`.
pub calculate_p95-least :
    (samples : List ℕ) (v : ℕ)
    → 0 < length samples
    → (length samples * 95 ≤ count_le (calculate_p95 samples) samples * 100)
      × ((calculate_p95 samples ≤ v) ⊎ (count_le v samples * 100 < length samples * 95))
unfolding calculate_p95 index_of
calculate_p95-least [] v h = absurd (omega arith)
calculate_p95-least (x ∷ xs) v h =
    let s = sort_samples (x ∷ xs) in
    let size : length s ≡ suc (length xs) = length-sort_samples (x ∷ xs) in
    let p = calculate_p95 (x ∷ xs) in
    let (covers, least) = ranked s v (sort_samples-IsSorted (x ∷ xs)) (omega arith) in
    let at_p : count_le p s ≡ count_le p (x ∷ xs) = count_le-sort_samples p (x ∷ xs) in
    let at_v : count_le v s ≡ count_le v (x ∷ xs) = count_le-sort_samples v (x ∷ xs) in
    (rw (← at_p, ← size) covers, rw (← at_v, ← size) least)
