-- ===== src/Question/Edit/Load/Admitted.antt =====
-- Who is shown the page that edits a question.
use history_quiz.Prelude.{ℕ, String, ◌≡◌, ◌↔◌, ap, subst, Option, none, some, List}
use history_quiz.Runtime.{Runtime}
use history_quiz.Errors.{bind_inv, Result, returned, ◌>>=◌}
use history_quiz.Web.{Request}
use history_quiz.RequestId.{Random}
use history_quiz.Session.{CookieStorage, SessionUser, get_user}
use history_quiz.Auth.{require_authenticated_user}
use history_quiz.Csrf.{issue_csrf_token}
use history_quiz.Question.Initial.{id_param, or_missing, resolve_required_question_id}
use history_quiz.Question.Posts.Laws.{logged_in_of_required, required_of_logged_in}
use history_quiz.Question.Edit.Load.{Visit, admitted}

resolve_required_question_id_iff :
    (id : Option String) (question_id : String)
    → (resolve_required_question_id id ≡ returned question_id) ↔ (id_param id ≡ some question_id)
unfolding resolve_required_question_id
resolve_required_question_id_iff id question_id = (to (id_param id), λ h. ap or_missing h)
  where
    to : (o : Option String) → or_missing o ≡ returned question_id → o ≡ some question_id
    to none h = absurd (cc)
    to (some s) h = cc

module _ (r : Runtime) {C : Type 0} (storage : CookieStorage C) (random : Random)
    (request : Request C) where
  -- A visit of a user who is logged in, of a path with an id, with a token for the form.
  pub record IsAdmitted (id : Option String) (random_bytes : List ℕ) (visit : Visit C)
      : Type 0 where
    pub logged_in : get_user storage request ≡ some visit.user
    pub of_path : id_param id ≡ some visit.question_id
    pub issues : issue_csrf_token storage random_bytes request ≡ returned visit.issued

  visit_inj : {a b : Visit C} → returned a ≡ returned b → a ≡ b
  visit_inj h = cc

  pub admitted_iff :
      (id : Option String) (random_bytes : List ℕ) (visit : Visit C)
      → (admitted r storage random request id random_bytes ≡ returned visit)
        ↔ IsAdmitted id random_bytes visit
  unfolding admitted
  admitted_iff id random_bytes visit = (to, from)
    where
      after_user : SessionUser → Result (Visit C)
      after_user user = resolve_required_question_id id >>= λ question_id.
          issue_csrf_token storage random_bytes request >>= λ issued.
          returned (record { user = user; question_id = question_id; issued = issued })

      to :
          (require_authenticated_user r storage request >>= after_user) ≡ returned visit
          → IsAdmitted id random_bytes visit
      to h =
          let (user, u, h1) =
            bind_inv (require_authenticated_user r storage request) after_user visit h in
          let (question_id, q, h2) =
            bind_inv (resolve_required_question_id id)
              (λ question_id. issue_csrf_token storage random_bytes request >>= λ issued.
                returned (record { user = user; question_id = question_id; issued = issued }))
              visit h1 in
          let (issued, i, h3) =
            bind_inv (issue_csrf_token storage random_bytes request)
              (λ issued.
                returned (record { user = user; question_id = question_id; issued = issued }))
              visit h2 in
          subst (IsAdmitted id random_bytes) (visit_inj h3) (record {
            logged_in = logged_in_of_required r storage random request user u;
            of_path = (resolve_required_question_id_iff id question_id).0 q;
            issues = i;
          })

      from :
          IsAdmitted id random_bytes visit
          → (require_authenticated_user r storage request >>= after_user) ≡ returned visit
      from a = rw (
        required_of_logged_in r storage random request visit.user a.logged_in,
        (resolve_required_question_id_iff id visit.question_id).1 a.of_path,
        a.issues,
      )
