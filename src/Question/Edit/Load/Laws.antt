-- ===== src/Question/Edit/Load/Laws.antt =====
-- What the page that edits a question shows.
use history_quiz.Prelude.{ℕ, String, ◌≡◌, ◌↔◌, refl, ap, sym, ◌∙◌, Option, none, some, List}
use history_quiz.Runtime.{Runtime}
use history_quiz.Errors.{bind_inv, Result, returned, thrown, Thrown, ◌>>=◌, catch}
use history_quiz.GrpcError.Normalize.{Params, throw_grpc_error_response}
use history_quiz.Web.{Request}
use history_quiz.RequestId.{Random, create_request_id}
use history_quiz.Session.{CookieStorage}
use history_quiz.Observability.{Metrics}
use history_quiz.GrpcClient.{RpcAnswer, UnaryMethod, CallOutside, failed, replied, result_of}
use history_quiz.GrpcClient.Laws.{invoke_unary-result, backend_answer}
use history_quiz.GrpcClient.Settings.{get_my_question, question_rpc_method_name}
use history_quiz.Question.{QuestionDetail, QuestionDraft, GetMyQuestion, QuestionResponse}
use history_quiz.Question.Initial.{to_initial_form_values}
use history_quiz.Question.Posts.{check_question}
use history_quiz.Question.Posts.Laws.{IsSaved, check_question_inv, check_question-passes}
use history_quiz.Question.Edit.Load.Admitted.{IsAdmitted, admitted_iff}
use history_quiz.Question.Edit.Load.{EditPage, Visit, admitted, page_of_call, load_visit, load_edit}

module _ (r : Runtime) {C : Type 0} (storage : CookieStorage C) (random : Random)
    (request : Request C) where
  page_inj : {a b : EditPage C} → returned a ≡ returned b → a ≡ b
  page_inj h = cc

  -- The page for a question that the backend gave.
  abbrev pub page_for : String → Visit C → QuestionDetail → QuestionDraft → EditPage C
  page_for request_id visit question initial_values = record {
    csrf_token = visit.issued.csrf_token;
    initial_values = initial_values;
    question_id = question.id;
    request_id = request_id;
    user_id = visit.user.user_id;
    set_cookie = visit.issued.set_cookie;
  }

  abbrev checked_page : String → Visit C → QuestionResponse → Result (EditPage C)
  checked_page request_id visit response =
      check_question "編集対象の問題データが見つかりません。" response.question >>= λ question.
      to_initial_form_values question >>= λ initial_values.
      returned (page_for request_id visit question initial_values)

  -- A page that is shown comes from a reply with a question that has first values.
  abbrev Shows : String → Visit C → RpcAnswer QuestionResponse → EditPage C → Type 0
  Shows request_id visit res page =
      (question : QuestionDetail) × (d : QuestionDraft) × IsSaved res question
      × (to_initial_form_values question ≡ returned d)
      × (page ≡ page_for request_id visit question d)

  catch_inv :
      (m : Result (EditPage C)) (p : Thrown → Params) (page : EditPage C)
      → catch m (λ e. throw_grpc_error_response r (p e)) ≡ returned page
      → m ≡ returned page
  unfolding throw_grpc_error_response
  catch_inv (thrown e) p page h = absurd (cc)
  catch_inv (returned a) p page h = h

  page_of_call_iff :
      (request_id : String) (visit : Visit C) (res : RpcAnswer QuestionResponse) (page : EditPage C)
      → (page_of_call r storage random request request_id visit (result_of request_id res)
          ≡ returned page)
        ↔ Shows request_id visit res page
  unfolding page_of_call throw_grpc_error_response
  page_of_call_iff request_id visit res page = (to res, from)
    where
      params : Thrown → Params
      params e = record {
        error = e;
        fallback_message = some "問題の取得に失敗しました。時間をおいて再試行してください。";
        request_id = some request_id;
      }

      to :
          (res : RpcAnswer QuestionResponse)
          → page_of_call r storage random request request_id visit (result_of request_id res)
            ≡ returned page
          → Shows request_id visit res page
      to (failed e) h = absurd (cc)
      to (replied reply) h =
          let k = catch_inv (checked_page request_id visit reply) params page h in
          let (question, c, k1) =
            bind_inv (check_question "編集対象の問題データが見つかりません。" reply.question)
              (λ question. to_initial_form_values question >>= λ d.
                returned (page_for request_id visit question d))
              page k in
          let (d, v, k2) =
            bind_inv (to_initial_form_values question)
              (λ d. returned (page_for request_id visit question d)) page k1 in
          let (found, has_id) = check_question_inv _ reply.question question c in
          (
            question,
            d,
            record { reply = reply; replies = refl; found = found; has_id = has_id },
            v,
            sym (page_inj k2),
          )

      from :
          Shows request_id visit res page
          → page_of_call r storage random request request_id visit (result_of request_id res)
            ≡ returned page
      from (question, d, s, v, e) = rw (
        s.replies,
        check_question-passes "編集対象の問題データが見つかりません。" s.reply.question question s.found s.has_id,
        v,
        e,
      )

  module _ (timeout : ℕ) (outside : CallOutside)
      (method : UnaryMethod GetMyQuestion QuestionResponse) where
    -- The backend's answer to the visit's question, for the visit's user, under a new id.
    abbrev pub load_reply : Visit C → Metrics → RpcAnswer QuestionResponse
    load_reply visit metrics =
        backend_answer r random timeout outside method (question_rpc_method_name get_my_question)
          (record {
            request_id = some (create_request_id random);
            timeout_ms = none;
            user_id = some visit.user.user_id;
          })
          (record { context = none; body = record { question_id = visit.question_id } }) metrics

    -- What a page comes from.
    pub record IsEditPage (id : Option String) (random_bytes : List ℕ) (metrics : Metrics)
        (page : EditPage C) : Type 0 where
      pub visit : Visit C
      pub admits : IsAdmitted r storage random request id random_bytes visit
      pub question : QuestionDetail
      pub saved : IsSaved (load_reply visit metrics) question
      pub draft : QuestionDraft
      pub values : to_initial_form_values question ≡ returned draft
      pub shows : page ≡ page_for (create_request_id random) visit question draft

    load_visit-result :
        (visit : Visit C) (metrics : Metrics)
        → (load_visit r storage random request timeout outside method (returned visit) metrics).0
          ≡ page_of_call r storage random request
              (create_request_id random)
              visit
              (result_of (create_request_id random) (load_reply visit metrics))
    unfolding load_visit
    load_visit-result visit metrics =
        ap (page_of_call r storage random request (create_request_id random) visit) (
          invoke_unary-result r random timeout outside method
            (question_rpc_method_name get_my_question)
            (record {
              request_id = some (create_request_id random);
              timeout_ms = none;
              user_id = some visit.user.user_id;
            })
            (record { context = none; body = record { question_id = visit.question_id } }) metrics)

    load_visit-IsEditPage :
        (id : Option String) (random_bytes : List ℕ) (metrics : Metrics) (page : EditPage C)
        (admission : Result (Visit C))
        → admitted r storage random request id random_bytes ≡ admission
        → (load_visit r storage random request timeout outside method admission metrics).0
          ≡ returned page
        → IsEditPage id random_bytes metrics page
    unfolding load_visit
    load_visit-IsEditPage id random_bytes metrics page (thrown e) a h = absurd (cc)
    load_visit-IsEditPage id random_bytes metrics page (returned visit) a h =
        let (question, d, s, v, e) =
          (page_of_call_iff (create_request_id random) visit (load_reply visit metrics) page).0
            (sym (load_visit-result visit metrics) ∙ h) in
        record {
          visit = visit;
          admits = (admitted_iff r storage random request id random_bytes visit).0 a;
          question = question;
          saved = s;
          draft = d;
          values = v;
          shows = e;
        }

    -- The page is shown exactly if a user is logged in, the path has an id, the form's token is
    -- issued, and the backend's reply, for that user and that id, has a question with an id and with
    -- first values. It shows that question under its own id, with those values, the token and its
    -- cookie, and the id of the call.
    pub load_edit_iff :
        (id : Option String) (random_bytes : List ℕ) (metrics : Metrics) (page : EditPage C)
        → ((load_edit r storage random request timeout outside method id random_bytes metrics).0
            ≡ returned page)
          ↔ IsEditPage id random_bytes metrics page
    unfolding load_edit
    load_edit_iff id random_bytes metrics page = (
      (λ h.
          load_visit-IsEditPage id random_bytes metrics page
            (admitted r storage random request id random_bytes) refl h),
      from,
    )
      where
        from :
            IsEditPage id random_bytes metrics page
            → (load_visit r storage random request timeout outside method
                (admitted r storage random request id random_bytes)
                metrics).0
              ≡ returned page
        from p = rw ((admitted_iff r storage random request id random_bytes p.visit).1 p.admits) (
            load_visit-result p.visit metrics
            ∙ (page_of_call_iff (create_request_id random) p.visit (load_reply p.visit metrics)
                  page).1
                (p.question, p.draft, p.saved, p.values, p.shows))
