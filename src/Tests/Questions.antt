-- ===== src/Tests/Questions.antt =====
-- Making and editing a question with four choices, which the backend gives out of order.
use history_quiz.Prelude.{
  String, ℕ, ◌≡◌, ◌↔◌, refl, sym, ap, ◌∙◌, ◌<◌, length, get_elem?, subst, true, Option, none, some,
  [], ◌∷◌, arith,
}
use mathlib.Core.List.{Mem}
use mathlib.Core.List.Perm
use history_quiz.Prelude.Decimal.{value_from, to_decimal, value_from-to_decimal}
use history_quiz.Prelude.Text.{trim}
use history_quiz.Prelude.Sort.{insert_by, sort_by}
use history_quiz.Errors.{Response, returned}
use history_quiz.Web.{FormValue}
use history_quiz.Session.{SessionData}
use history_quiz.Observability.Laws.{no_metrics}
use history_quiz.GrpcClient.{CallOutside, UnaryMethod, replied}
use history_quiz.Question.{
  QuestionChoice, QuestionDetail, QuestionDraft, QuestionResponse, CreateQuestion, UpdateQuestion,
  GetMyQuestion,
}
use history_quiz.Question.Schema.{utf16_length, IsQuestionForm}
use history_quiz.Question.Initial.{find_index, to_sorted_choices, to_initial_form_values}
use history_quiz.Question.Initial.Laws.{
  choices_of, IsStored, to_initial_form_values-draft, to_initial_form_values_correct,
}
use history_quiz.Question.Posts.{ActionData, Submission, success, reset_form, plain, saved_answer}
use history_quiz.Question.Edit.{edit_action}
use history_quiz.Question.Edit.Laws.{IsUpdated, edit_action_iff}
use history_quiz.Question.Edit.Load.{EditPage, load_edit}
use history_quiz.Question.Edit.Load.Laws.{IsEditPage, load_edit_iff}
use history_quiz.Question.Create.{create_action}
use history_quiz.Question.Create.Laws.{IsCreated, create_action_iff}
use history_quiz.Tests.World.{world, storage, random, request_with, alice_session, field_of_form}

abbrev pub draft : QuestionDraft
draft = record {
  prompt = "1600?";
  choices = "a" ∷ "b" ∷ "c" ∷ "d" ∷ [];
  correct_ordinal = 2;
  explanation = "";
}

pub draft-IsQuestionForm : IsQuestionForm draft
unfolding trim utf16_length
draft-IsQuestionForm = record {
  prompt_given = (refl, refl);
  choices_given = ((refl, refl), ((refl, refl), ((refl, refl), ((refl, refl), tt))));
  choices_counted = refl;
  ordinal_valid = omega arith;
  explanation_trimmed = refl;
  explanation_short = omega arith;
}

pub apart : (m n : ℕ) → to_decimal m ≡ to_decimal n → m ≡ n
apart m n h = sym (value_from-to_decimal m) ∙ ap (value_from 0) h ∙ value_from-to_decimal n

abbrev choice : String → String → ℕ → QuestionChoice
choice id label ordinal = record { id = id; label = label; ordinal = ordinal }

abbrev pub stored : QuestionDetail
stored = record {
  id = "q1";
  prompt = "1600?";
  choices = choice "1" "b" 1 ∷ choice "0" "a" 0 ∷ choice "2" "c" 2 ∷ choice "3" "d" 3 ∷ [];
  correct_choice_id = "2";
  explanation = none;
  updated_at = "";
}

pub stored-IsStored : IsStored to_decimal draft stored
unfolding to_decimal choices_of
stored-IsStored = record {
  same_prompt = refl;
  same_explanation = refl;
  same_choices = Perm.swap (choice "0" "a" 0) (choice "1" "b" 1) _;
  correct = refl;
}

to_initial_form_values-draft_example : to_initial_form_values stored ≡ returned draft
to_initial_form_values-draft_example =
    to_initial_form_values-draft to_decimal draft stored apart stored-IsStored draft-IsQuestionForm

to_initial_form_values_correct_example :
    (length draft.choices ≡ 4)
    × (draft.correct_ordinal < 4)
    × (c : QuestionChoice) × Mem c stored.choices
    × (c.id ≡ stored.correct_choice_id)
    × (get_elem? draft.choices draft.correct_ordinal ≡ some c.label)
unfolding to_initial_form_values to_sorted_choices sort_by insert_by find_index
to_initial_form_values_correct_example = to_initial_form_values_correct stored draft refl

abbrev pub parse : (String → Option FormValue) → Submission
parse form = success draft

pub parse-IsQuestionForm :
    (form : String → Option FormValue) (d : QuestionDraft)
    → parse form ≡ success d
    → IsQuestionForm d
parse-IsQuestionForm form d h = subst IsQuestionForm (inj h) draft-IsQuestionForm
  where
    inj : {a b : QuestionDraft} → success a ≡ success b → a ≡ b
    inj k = cc

abbrev pub call_outside : CallOutside
call_outside = record { node_env = none; deadline_from = 10; started_at = 11; ended_at = 15 }

abbrev pub create : UnaryMethod CreateQuestion QuestionResponse
create _ _ _ = replied (record { question = some stored })

abbrev pub update : UnaryMethod UpdateQuestion QuestionResponse
update _ _ _ = replied (record { question = some stored })

abbrev pub get : UnaryMethod GetMyQuestion QuestionResponse
get _ _ _ = replied (record { question = some stored })

abbrev created : Response ActionData
created = saved_answer reset_form "u1" stored

create_action_iff_example :
    (((create_action world storage random
          (request_with (some alice_session))
          3000
          call_outside
          create
          (returned field_of_form)
          parse
          no_metrics).0
        ≡ returned created)
      × (created.body.ok ≡ true))
    ↔ IsCreated world storage random
        (request_with (some alice_session))
        3000
        call_outside
        create
        parse
        (returned field_of_form)
        no_metrics
        created
create_action_iff_example =
    create_action_iff world storage random (request_with (some alice_session)) 3000 call_outside
      create parse (returned field_of_form) no_metrics created parse-IsQuestionForm

abbrev updated : Response ActionData
updated = saved_answer plain "u1" stored

edit_action_iff_example :
    (((edit_action world storage random
          (request_with (some alice_session))
          3000
          call_outside
          update
          (some " q1 ")
          (returned field_of_form)
          parse
          no_metrics).0
        ≡ returned updated)
      × (updated.body.ok ≡ true))
    ↔ IsUpdated world storage random
        (request_with (some alice_session))
        3000
        call_outside
        update
        (some " q1 ")
        parse
        (returned field_of_form)
        no_metrics
        updated
edit_action_iff_example =
    edit_action_iff world storage random (request_with (some alice_session)) 3000 call_outside
      update (some " q1 ") parse (returned field_of_form) no_metrics updated parse-IsQuestionForm

abbrev pub page : EditPage SessionData
page = record {
  csrf_token = "tok";
  initial_values = draft;
  question_id = "q1";
  request_id = "u1";
  user_id = "alice";
  set_cookie = none;
}

load_edit_iff_example :
    ((load_edit world storage random
        (request_with (some alice_session))
        3000
        call_outside
        get
        (some "q1")
        (1 ∷ [])
        no_metrics).0
      ≡ returned page)
    ↔ IsEditPage world storage random
        (request_with (some alice_session))
        3000
        call_outside
        get
        (some "q1")
        (1 ∷ [])
        no_metrics
        page
load_edit_iff_example =
    load_edit_iff world storage random (request_with (some alice_session)) 3000 call_outside get
      (some "q1") (1 ∷ []) no_metrics page
