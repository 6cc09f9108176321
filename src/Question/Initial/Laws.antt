-- ===== src/Question/Initial/Laws.antt =====
-- The form's first values against the stored question.
use history_quiz.Prelude.{
  ℕ, zero, suc, ◌+◌, ◌≤◌, ◌<◌, String, ◌≡◌, refl, ap, sym, ◌∙◌, subst, Option, none, some, List, [],
  ◌∷◌, ◌==◌, eq_iff, eq_refl, map, length, get_elem?, nat_eq, arith, Bool-cases, Option-cases, inl,
  inr,
}
use text.Mathlib.TextEquality.{IsScalar-prop}
use native.Mathlib.Bridge.{le_prop}
use mathlib.Core.Logic.Or
use mathlib.Core.List.{Mem, Perm, mem-cons, mem-cons_self, not-mem-nil}
use mathlib.Core.List.Perm
use history_quiz.Prelude.Sort.{by_key, IsStrict, sort_by-eq, sort_by-perm}
use history_quiz.Errors.{returned}
use history_quiz.GrpcError.Codes.{or_else}
use history_quiz.Question.{QuestionChoice, QuestionDetail, QuestionDraft}
use history_quiz.Question.Schema.{question_choices_count, IsQuestionForm}
use history_quiz.Question.Initial.{
  to_sorted_choices, succ_index, find_index, values_at, to_initial_form_values,
}

-- The choices with the labels of a draft, numbered from `n` on, with an id for each number.
unfoldable pub choices_of : (ids : ℕ → String) → ℕ → List String → List QuestionChoice
choices_of ids n [] = []
choices_of ids n (label ∷ labels) =
    record { id = ids n; label = label; ordinal = n } ∷ choices_of ids (suc n) labels

choice-IsSet : IsSet QuestionChoice
choice-IsSet = hlevel IsScalar-prop

above :
    (ids : ℕ → String) (n : ℕ) (labels : List String) (c : QuestionChoice)
    → Mem c (choices_of ids n labels)
    → n ≤ c.ordinal
unfolding choices_of
above ids n [] c m = absurd (not-mem-nil m)
above ids n (label ∷ labels) c m =
    Or.elim le_prop (mem-cons.0 m) (λ e. rw e (omega arith))
      (λ k. let le = above ids (suc n) labels c k in omega arith)

choices_of-IsStrict :
    (ids : ℕ → String) (n : ℕ) (labels : List String)
    → IsStrict (λ c. c.ordinal) (choices_of ids n labels)
unfolding choices_of
choices_of-IsStrict ids n [] = tt
choices_of-IsStrict ids n (label ∷ labels) =
    ((λ c m. above ids (suc n) labels c m), choices_of-IsStrict ids (suc n) labels)

length-choices_of :
    (ids : ℕ → String) (n : ℕ) (labels : List String)
    → length (choices_of ids n labels) ≡ length labels
unfolding choices_of
length-choices_of ids n [] = refl
length-choices_of ids n (label ∷ labels) = ap suc (length-choices_of ids (suc n) labels)

labels-choices_of :
    (ids : ℕ → String) (n : ℕ) (labels : List String)
    → map (λ c. c.label) (choices_of ids n labels) ≡ labels
unfolding choices_of
labels-choices_of ids n [] = refl
labels-choices_of ids n (label ∷ labels) = ap (◌∷◌ label) (labels-choices_of ids (suc n) labels)

find_index-choices_of :
    (ids : ℕ → String)
    → ((m n : ℕ) → ids m ≡ ids n → m ≡ n)
    → (labels : List String) (n k : ℕ) → k < length labels
    → find_index (ids (n + k)) (choices_of ids n labels) ≡ some k
unfolding choices_of find_index
find_index-choices_of ids apart [] n k h = absurd (omega arith)
find_index-choices_of ids apart (label ∷ labels) n zero h =
    let same : n + 0 ≡ n = omega arith in rw (same, eq_refl (ids n))
find_index-choices_of ids apart (label ∷ labels) n (suc k) h =
    let later : n + suc k ≡ suc n + k = omega arith in
    let step = find_index-choices_of ids apart labels (suc n) k (omega arith) in
    elim (Bool-cases (ids n == ids (n + suc k))) [
      | inl e ↦
          let same = apart n (n + suc k) ((eq_iff (ids n) (ids (n + suc k))).0 e) in
          absurd (omega arith)
      | inr e ↦ rw e (
          ap (λ m. succ_index (find_index (ids m) (choices_of ids (suc n) labels))) later
          ∙ ap succ_index step)
    ]

-- The stored question `q` of a draft: its choices, each with an id of its own and the number of its
-- place, stand in any order.
pub record IsStored (ids : ℕ → String) (d : QuestionDraft) (q : QuestionDetail) : Type 0 where
  pub same_prompt : q.prompt ≡ d.prompt
  pub same_explanation : or_else q.explanation "" ≡ d.explanation
  pub same_choices : Perm q.choices (choices_of ids 0 d.choices)
  pub correct : q.correct_choice_id ≡ ids d.correct_ordinal

sorted-stored :
    (ids : ℕ → String) (d : QuestionDraft) (q : QuestionDetail)
    → IsStored ids d q
    → to_sorted_choices q ≡ choices_of ids 0 d.choices
unfolding to_sorted_choices
sorted-stored ids d q s =
    sort_by-eq (λ c. c.ordinal) choice-IsSet q.choices (choices_of ids 0 d.choices)
      (choices_of-IsStrict ids 0 d.choices) s.same_choices

-- The form that edits a stored question begins with the draft that the question was saved from,
-- whatever the order in which the backend gives the choices, if the draft is valid and no two
-- choices have the same id.
pub to_initial_form_values-draft :
    (ids : ℕ → String) (d : QuestionDraft) (q : QuestionDetail)
    → ((m n : ℕ) → ids m ≡ ids n → m ≡ n)
    → IsStored ids d q
    → IsQuestionForm d
    → to_initial_form_values q ≡ returned d
unfolding to_initial_form_values
to_initial_form_values-draft ids d q apart s v =
    let counted : length (choices_of ids 0 d.choices) ≡ 4 =
      length-choices_of ids 0 d.choices ∙ v.choices_counted in
    let small : d.correct_ordinal < length d.choices =
      (let n = v.choices_counted in let m = v.ordinal_valid in omega arith) in
    let zero_add : 0 + d.correct_ordinal ≡ d.correct_ordinal = omega arith in
    let found : find_index (ids d.correct_ordinal) (choices_of ids 0 d.choices)
        ≡ some d.correct_ordinal =
      subst (λ m. find_index (ids m) (choices_of ids 0 d.choices) ≡ some d.correct_ordinal) zero_add
        (find_index-choices_of ids apart d.choices 0 d.correct_ordinal small) in
    rw (
      sorted-stored ids d q s,
      counted,
      s.correct,
      found,
      labels-choices_of ids 0 d.choices,
      s.same_prompt,
      s.same_explanation,
    )

-- The choice that find_index finds.
Found : String → List QuestionChoice → ℕ → Type 0
Found id choices k =
    (k < length choices)
    × (c : QuestionChoice) × Mem c choices
    × (c.id ≡ id)
    × (get_elem? (map (λ x. x.label) choices) k ≡ some c.label)

find_index-Found :
    (id : String) (choices : List QuestionChoice) (k : ℕ)
    → find_index id choices ≡ some k
    → Found id choices k
unfolding find_index Found
find_index-Found id [] k h = absurd (cc)
find_index-Found id (choice ∷ choices) k h = elim (Bool-cases (choice.id == id)) [
  | inl e ↦
      let zero_k : 0 ≡ k = some_inj (rw e at h) in
      subst (Found id (choice ∷ choices)) zero_k
        (omega arith, choice, mem-cons_self, (eq_iff choice.id id).0 e, refl)
  | inr e ↦ elim (Option-cases (find_index id choices)) [
    | inl n ↦ (let clash = rw (e, n) at h in absurd (cc))
    | inr (i, f) ↦
        let next : suc i ≡ k = some_inj (rw (e, f) at h) in
        let (less, c, m, same, label) = find_index-Found id choices i f in
        subst (Found id (choice ∷ choices)) next
          (omega arith, c, mem-cons.1 (Or.inr m), same, label)
  ]
]
  where
    some_inj : {a b : ℕ} → some a ≡ some b → a ≡ b
    some_inj h = cc

values_inj : {a b : QuestionDraft} → returned a ≡ returned b → a ≡ b
values_inj h = cc

values_at-Found :
    (q : QuestionDetail) (sorted : List QuestionChoice) (o : Option ℕ) (d : QuestionDraft)
    → values_at q sorted o ≡ returned d
    → (o ≡ some d.correct_ordinal) × (d.choices ≡ map (λ x. x.label) sorted)
values_at-Found q sorted none d h = absurd (cc)
values_at-Found q sorted (some k) d h =
    (ap (λ x. some x.correct_ordinal) (values_inj h), sym (ap (λ x. x.choices) (values_inj h)))

-- First values have four labels, and the one they mark is that of a choice of the question with the
-- id of its correct choice.
pub to_initial_form_values_correct :
    (q : QuestionDetail) (d : QuestionDraft)
    → to_initial_form_values q ≡ returned d
    → (length d.choices ≡ question_choices_count)
      × (d.correct_ordinal < question_choices_count)
      × (c : QuestionChoice) × Mem c q.choices
      × (c.id ≡ q.correct_choice_id)
      × (get_elem? d.choices d.correct_ordinal ≡ some c.label)
unfolding to_initial_form_values to_sorted_choices Found
to_initial_form_values_correct q d h =
    let sorted = to_sorted_choices q in
    elim (Bool-cases (nat_eq (length sorted) 4)) [
      | inl e ↦
          let (found, labels) =
            values_at-Found q sorted (find_index q.correct_choice_id sorted) d (rw e at h) in
          let (less, c, m, same, label) =
            find_index-Found q.correct_choice_id sorted d.correct_ordinal found in
          let four : length sorted ≡ 4 = ground arith in
          (
            ap length labels ∙ length-map sorted ∙ four,
            omega arith,
            c,
            (Perm.mem_iff (sort_by-perm (by_key (λ x. x.ordinal)) q.choices)).0 m,
            same,
            rw labels label,
          )
      | inr e ↦ (let clash = rw e at h in absurd (cc))
    ]
  where
    length-map : (cs : List QuestionChoice) → length (map (λ x. x.label) cs) ≡ length cs
    length-map [] = refl
    length-map (c ∷ cs) = ap suc (length-map cs)
