-- ===== src/Question/Initial.antt =====
-- The first values of the form that edits a question: the helpers of
-- client/app/routes/questions.$id.edit.tsx.
pub mod Laws
use history_quiz.Prelude.{
  ℕ, suc, ◌-◌, String, Bool, true, false, not, Option, none, some, List, [], ◌∷◌, ◌==◌, map, length,
  nat_eq, if◌then◌else◌,
}
use history_quiz.Prelude.Sort.{sort_by, by_key}
use history_quiz.Prelude.Text.{is_empty, trimmed}
use history_quiz.Errors.{Response, Result, returned, thrown, Thrown, error, message_response, ◌>>=◌}
use history_quiz.GrpcError.Codes.{or_else}
use history_quiz.Question.{QuestionChoice, QuestionDetail, QuestionDraft}
use history_quiz.Question.Schema.{question_choices_count}

-- json({ message: "id が指定されていません。" }, { status: 400 })
abbrev pub id_missing : Response String
id_missing = record { body = "id が指定されていません。"; headers = []; status = 400 }

-- params.id?.trim(), with nothing for an empty text.
abbrev pub id_param : Option String → Option String
id_param none = none
id_param (some id) = trimmed id

abbrev pub or_missing : Option String → Result String
or_missing none = thrown (message_response id_missing)
or_missing (some id) = returned id

-- resolveRequiredQuestionId
unfoldable pub resolve_required_question_id : Option String → Result String
resolve_required_question_id id = or_missing (id_param id)

-- toSortedChoices
unfoldable pub to_sorted_choices : QuestionDetail → List QuestionChoice
to_sorted_choices question = sort_by (by_key (λ choice. choice.ordinal)) question.choices

abbrev pub succ_index : Option ℕ → Option ℕ
succ_index none = none
succ_index (some i) = some (suc i)

-- findIndex, `none` for -1.
unfoldable pub find_index : (id : String) → List QuestionChoice → Option ℕ
find_index id [] = none
find_index id (choice ∷ choices) =
    let rest = find_index id choices in if choice.id == id then some 0 else succ_index rest

abbrev pub values_at : QuestionDetail → List QuestionChoice → Option ℕ → Result QuestionDraft
values_at question sorted_choices none = thrown (error "正解選択肢の解決に失敗しました。")
values_at question sorted_choices (some correct_ordinal) = returned (record {
  prompt = question.prompt;
  choices = map (λ choice. choice.label) sorted_choices;
  correct_ordinal = correct_ordinal;
  explanation = or_else question.explanation "";
})

-- toInitialFormValues
unfoldable pub to_initial_form_values : QuestionDetail → Result QuestionDraft
to_initial_form_values question =
    let sorted_choices = to_sorted_choices question in
    if not (nat_eq (length sorted_choices) question_choices_count)
    then thrown (error "選択肢の件数が不正です。")
    else values_at question sorted_choices (find_index question.correct_choice_id sorted_choices)
