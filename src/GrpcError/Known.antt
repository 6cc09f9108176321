-- ===== src/GrpcError/Known.antt =====
-- Every code name that `toGrpcCodeName` gives is the name of a gRPC status.
use history_quiz.Prelude.{
  ℕ, String, ◌≡◌, refl, inl, inr, true, false, some, List, [], ◌∷◌, ◌==◌, eq_iff, nat_eq, any, All,
  arith, Bool-cases,
}
use history_quiz.Prelude.Dict.{lookup, prototype_names}
use history_quiz.Prelude.Text.{is_empty, trim}
use history_quiz.Prelude.Letters.{UpperCase, has_lower}
use history_quiz.Errors.{StatusCode, number, name, other}
use history_quiz.GrpcError.Codes.{
  by_number, grpc_status_by_number, grpc_code_to_http_status, or_else, is_some, known_or_unknown,
  to_grpc_code_name,
}
use history_quiz.GrpcError.Status.{GrpcStatus, name_of}

abbrev pub IsKnown : String → Type 0
IsKnown n = (s : GrpcStatus) × (n ≡ name_of s)

module _ {ℓ κ} {V : Type ℓ} (P : String → Type κ) where
  P_of_lookup :
      (k : String) (t : List (String × V)) → All (λ e. P e.0) t → is_some (lookup k t) ≡ true → P k
  unfolding lookup
  P_of_lookup k [] a h = absurd (cc)
  P_of_lookup k ((j, v) ∷ t) (p, a) h = elim (Bool-cases (j == k)) [
    | inl e ↦ rw ((eq_iff j k).0 e) at p
    | inr e ↦ P_of_lookup k t a (rw e at h)
  ]

module _ {ℓ κ} {V : Type ℓ} (P : V → Type κ) where
  pub P_of_lookup_value :
      (k : String) (t : List (String × V)) (v : V) → All (λ e. P e.1) t → lookup k t ≡ some v → P v
  unfolding lookup
  P_of_lookup_value k [] v a h = absurd (cc)
  P_of_lookup_value k ((j, w) ∷ t) v (p, a) h = elim (Bool-cases (j == k)) [
    | inl e ↦ let same : w ≡ v = ground arith in rw same at p
    | inr e ↦ P_of_lookup_value k t v a (rw e at h)
  ]

P_of_by_number {κ} :
    (P : String → Type κ) (n : ℕ) (t : List (ℕ × String)) (d : String)
    → P d
    → All (λ e. P e.1) t
    → P (or_else (by_number n t) d)
unfolding by_number
P_of_by_number P n [] d q a = q
P_of_by_number P n ((m, s) ∷ t) d q (p, a) = elim (Bool-cases (nat_eq m n)) [
  | inl e ↦ rw e p
  | inr e ↦ rw e (P_of_by_number P n t d q a)
]

-- No text without small letters is one of these names.
has_lower_of_any :
    (n : String) (ps : List String)
    → All (λ p. has_lower p ≡ true) ps
    → any (λ p. p == n) ps ≡ true
    → has_lower n ≡ true
has_lower_of_any n [] a h = cc
has_lower_of_any n (p ∷ ps) (q, a) h = elim (Bool-cases (p == n)) [
  | inl e ↦ rw ((eq_iff p n).0 e) at q
  | inr e ↦ has_lower_of_any n ps a (rw e at h)
]

prototype_names_lower : All (λ p. has_lower p ≡ true) prototype_names
unfolding has_lower
prototype_names_lower = (
  refl,
  (refl, (refl, (refl, (refl, (refl, (refl, (refl, (refl, (refl, (refl, (refl, tt))))))))))),
)

IsKnown-table : All (λ e. IsKnown e.0) grpc_code_to_http_status
IsKnown-table = (
  (GrpcStatus.aborted, refl),
  (
    (GrpcStatus.already_exists, refl),
    (
      (GrpcStatus.data_loss, refl),
      (
        (GrpcStatus.deadline_exceeded, refl),
        (
          (GrpcStatus.failed_precondition, refl),
          (
            (GrpcStatus.internal, refl),
            (
              (GrpcStatus.invalid_argument, refl),
              (
                (GrpcStatus.not_found, refl),
                (
                  (GrpcStatus.out_of_range, refl),
                  (
                    (GrpcStatus.permission_denied, refl),
                    (
                      (GrpcStatus.resource_exhausted, refl),
                      (
                        (GrpcStatus.unauthenticated, refl),
                        (
                          (GrpcStatus.unavailable, refl),
                          ((GrpcStatus.unimplemented, refl), ((GrpcStatus.unknown, refl), tt)),
                        ),
                      ),
                    ),
                  ),
                ),
              ),
            ),
          ),
        ),
      ),
    ),
  ),
)

IsKnown-numbers : All (λ e. IsKnown e.1) grpc_status_by_number
IsKnown-numbers = (
  (GrpcStatus.grpc_ok, refl),
  (
    (GrpcStatus.cancelled, refl),
    (
      (GrpcStatus.unknown, refl),
      (
        (GrpcStatus.invalid_argument, refl),
        (
          (GrpcStatus.deadline_exceeded, refl),
          (
            (GrpcStatus.not_found, refl),
            (
              (GrpcStatus.already_exists, refl),
              (
                (GrpcStatus.permission_denied, refl),
                (
                  (GrpcStatus.resource_exhausted, refl),
                  (
                    (GrpcStatus.failed_precondition, refl),
                    (
                      (GrpcStatus.aborted, refl),
                      (
                        (GrpcStatus.out_of_range, refl),
                        (
                          (GrpcStatus.unimplemented, refl),
                          (
                            (GrpcStatus.internal, refl),
                            (
                              (GrpcStatus.unavailable, refl),
                              (
                                (GrpcStatus.data_loss, refl),
                                ((GrpcStatus.unauthenticated, refl), tt),
                              ),
                            ),
                          ),
                        ),
                      ),
                    ),
                  ),
                ),
              ),
            ),
          ),
        ),
      ),
    ),
  ),
)

IsKnown-known_or_unknown : (n : String) → has_lower n ≡ false → IsKnown (known_or_unknown n)
unfolding known_or_unknown
IsKnown-known_or_unknown n h = elim (Bool-cases (is_empty n)) [
  | inl e ↦ rw e (GrpcStatus.unknown, refl)
  | inr e ↦ rw e (elim (Bool-cases (is_some (lookup n grpc_code_to_http_status))) [
    | inl f ↦ rw f (P_of_lookup IsKnown n grpc_code_to_http_status IsKnown-table f)
    | inr f ↦ rw f (elim (Bool-cases (any (λ p. p == n) prototype_names)) [
      | inl g ↦ absurd (cc (has_lower_of_any n prototype_names prototype_names_lower g))
      | inr g ↦ rw g (GrpcStatus.unknown, refl)
    ])
  ])
]

module _ (u : UpperCase) where
  -- The code name of any status code, a text of any spelling included, is that of a gRPC status.
  pub to_grpc_code_name-IsKnown : (code : StatusCode) → IsKnown (to_grpc_code_name u code)
  unfolding to_grpc_code_name
  to_grpc_code_name-IsKnown (number n) =
      P_of_by_number IsKnown n grpc_status_by_number "UNKNOWN" (GrpcStatus.unknown, refl)
        IsKnown-numbers
  to_grpc_code_name-IsKnown (name s) =
      IsKnown-known_or_unknown (u.to_upper_case (trim s)) (u.no_lower (trim s))
  to_grpc_code_name-IsKnown other = (GrpcStatus.unknown, refl)
