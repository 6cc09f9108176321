-- ===== src/Prelude/Sort.antt =====
-- Array.prototype.sort, which is stable, for a comparison of keys.
use Prim.Native.Nat.{ℕ, ◌≤◌, ◌<◌}
use mathlib.Core.Path.{◌≡◌, ap₂}
use mathlib.Core.Logic.{inl, inr}
use mathlib.Core.Logic.Or
use mathlib.Core.Bool.{Bool}
use mathlib.Core.List.{List, [], ◌∷◌, Mem, Perm, mem-cons, mem-cons_self, not-mem-nil}
use mathlib.Core.List.Perm
use native.Mathlib.Bridge.{le_prop}
use native.Mathlib.Omega.{arith}
use history_quiz.Prelude.Tests.{leb, if◌then◌else◌, Bool-cases}

module _ {ℓ} {A : Type ℓ} where
  -- `before x y` is a comparison's result of at most 0.
  unfoldable pub insert_by : (before : A → A → Bool) → A → List A → List A
  insert_by before x [] = x ∷ []
  insert_by before x (y ∷ ys) =
      let rest = insert_by before x ys in if before x y then x ∷ y ∷ ys else y ∷ rest

  unfoldable pub sort_by : (before : A → A → Bool) → List A → List A
  unfolding insert_by
  sort_by before [] = []
  sort_by before (x ∷ xs) = insert_by before x (sort_by before xs)

  insert_by-perm :
      (before : A → A → Bool) (x : A) (ys : List A) → Perm (insert_by before x ys) (x ∷ ys)
  unfolding insert_by
  insert_by-perm before x [] = Perm.rfl
  insert_by-perm before x (y ∷ ys) = elim (Bool-cases (before x y)) [
    | inl e ↦ rw e Perm.rfl
    | inr e ↦ rw e (Perm.trans (Perm.cons y (insert_by-perm before x ys)) (Perm.swap x y ys))
  ]

  -- A sorted array holds the same items.
  pub sort_by-perm : (before : A → A → Bool) (xs : List A) → Perm (sort_by before xs) xs
  unfolding sort_by
  sort_by-perm before [] = Perm.rfl
  sort_by-perm before (x ∷ xs) =
      Perm.trans (insert_by-perm before x (sort_by before xs))
        (Perm.cons x (sort_by-perm before xs))

module _ {ℓ} {A : Type ℓ} (key : A → ℕ) where
  abbrev pub by_key : A → A → Bool
  by_key x y = leb (key x) (key y)

  abbrev pub IsAscending : List A → Type ℓ
  IsAscending [] = Unit
  IsAscending (x ∷ xs) = ((y : A) → Mem y xs → key x ≤ key y) × IsAscending xs

  abbrev pub IsStrict : List A → Type ℓ
  IsStrict [] = Unit
  IsStrict (x ∷ xs) = ((y : A) → Mem y xs → key x < key y) × IsStrict xs

  insert_by-IsAscending :
      (x : A) (ys : List A) → IsAscending ys → IsAscending (insert_by by_key x ys)
  unfolding insert_by
  insert_by-IsAscending x [] h = ((λ y m. absurd (not-mem-nil m)), tt)
  insert_by-IsAscending x (y ∷ ys) (b, h) = elim (Bool-cases (by_key x y)) [
    | inl e ↦
        let le : key x ≤ key y = ground arith in
        rw e (
          (λ z m.
              Or.elim le_prop (mem-cons.0 m) (λ p. rw p le) (λ n. let k = b z n in omega arith)),
          (b, h),
        )
    | inr e ↦
        let le : key y ≤ key x = ground arith in
        rw e (
          (λ z m.
              Or.elim le_prop (mem-cons.0 ((Perm.mem_iff (insert_by-perm by_key x ys)).0 m))
                (λ p. rw p le) (λ n. b z n)),
          insert_by-IsAscending x ys h,
        )
  ]

  pub sort_by-IsAscending : (xs : List A) → IsAscending (sort_by by_key xs)
  unfolding sort_by
  sort_by-IsAscending [] = tt
  sort_by-IsAscending (x ∷ xs) =
      insert_by-IsAscending x (sort_by by_key xs) (sort_by-IsAscending xs)

  -- The least item of the one list is that of the other.
  head-eq :
      IsSet A
      → (a b : A) (l r : List A) → IsAscending (a ∷ l)
      → IsStrict (b ∷ r)
      → Perm (a ∷ l) (b ∷ r)
      → a ≡ b
  head-eq set a b l r (sl, _) (sr, _) p =
      let le : key a ≤ key b =
        Or.elim le_prop (mem-cons.0 ((Perm.mem_iff p).1 mem-cons_self)) (λ e. rw e (omega arith))
          (λ m. sl b m) in
      Or.elim (set a b) (mem-cons.0 ((Perm.mem_iff p).0 mem-cons_self)) (λ e. e)
        (λ m. let k = sr a m in absurd (omega arith))

  pub ascending_unique : IsSet A → (l r : List A) → IsAscending l → IsStrict r → Perm l r → l ≡ r
  ascending_unique set [] r sl sr p = Perm.nil-eq p
  ascending_unique set (a ∷ l) [] sl sr p = Perm.eq-nil p
  ascending_unique set (a ∷ l) (b ∷ r) sl sr p =
      let heads = head-eq set a b l r sl sr p in
      let tails = Perm.cons_inv (Perm.trans p (Perm.symm (Perm.cons' heads Perm.rfl))) in
      ap₂ ◌∷◌ heads (ascending_unique set l r sl.1 sr.1 tails)

  -- Items with different keys come out in the one order of their keys, whatever order they were in.
  pub sort_by-eq : IsSet A → (xs ys : List A) → IsStrict ys → Perm xs ys → sort_by by_key xs ≡ ys
  sort_by-eq set xs ys s p =
      ascending_unique set (sort_by by_key xs) ys (sort_by-IsAscending xs) s
        (Perm.trans (sort_by-perm by_key xs) p)
