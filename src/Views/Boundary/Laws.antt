-- ===== src/Views/Boundary/Laws.antt =====
-- Which errors the error pages show.
use history_quiz.Prelude.{String, ◌≡◌, refl, ap, sym, ◌∙◌, true, false, Option, none, some, arith}
use history_quiz.Prelude.Text.{is_empty, trim, non_blank}
use history_quiz.Runtime.{Runtime}
use history_quiz.Errors.{error_response}
use history_quiz.GrpcError.Violations.{has_text}
use history_quiz.GrpcError.Normalize.{
  extract_service_error, metadata_of, resolve_request_id, Params, build_user_facing_message,
  normalized_answer, normalize_grpc_http_error, create_grpc_error_response,
}
use history_quiz.GrpcError.Requests.{resolve_request_id-trimmed}
use history_quiz.Views.Boundary.{
  text_or, present_text, error_boundary, quiz_boundary, me_boundary, edit_error_boundary,
  edit_boundary,
}

is_empty_of_non_blank : (s : String) → trim s ≡ s → non_blank s ≡ true → is_empty s ≡ false
unfolding non_blank
is_empty_of_non_blank s same full =
    let full_trim : is_empty (trim s) ≡ false = ground arith in ap is_empty (sym same) ∙ full_trim

module _ (r : Runtime) where
  message-fallback :
      (fallback code : String) (details : Option String)
      → non_blank fallback ≡ true
      → (build_user_facing_message (some fallback) code details ≡ trim fallback)
        × (is_empty (trim fallback) ≡ false)
  unfolding build_user_facing_message has_text non_blank
  message-fallback fallback code details h = (rw h, ground arith)

  id-present :
      (params : Params)
      → present_text (normalize_grpc_http_error r params).request_id
        ≡ (normalize_grpc_http_error r params).request_id
  unfolding normalize_grpc_http_error normalized_answer
  id-present params = go _ refl
    where
      go :
          (o : Option String)
          → resolve_request_id r params.request_id
              (extract_service_error params.error).1
              (metadata_of (extract_service_error params.error).0)
            ≡ o
          → present_text o ≡ o
      go none e = refl
      go (some id) e =
          let (same, full) =
            resolve_request_id-trimmed r params.request_id (extract_service_error params.error).1
              (metadata_of (extract_service_error params.error).0) id e in
          rw (is_empty_of_non_blank id same full)

  message-shown :
      (params : Params) (fallback : String)
      → params.fallback_message ≡ some fallback
      → non_blank fallback ≡ true
      → (normalize_grpc_http_error r params).payload.message ≡ trim fallback
  unfolding normalize_grpc_http_error normalized_answer
  message-shown params fallback h k = rw h (message-fallback fallback _ _ k).0

  text_or_shown :
      (default : String) (params : Params) (fallback : String)
      → params.fallback_message ≡ some fallback
      → non_blank fallback ≡ true
      → text_or (some (normalize_grpc_http_error r params).payload.message) default ≡ trim fallback
  text_or_shown default params fallback h k =
      let full : is_empty (trim fallback) ≡ false = (message-fallback fallback "" none k).1 in
      rw (message-shown params fallback h k, full)

  -- If a loader of the quiz, of the my page or of the page that edits a question throws the answer to
  -- a gRPC error, for which each of them has a message with text, then the route's error page shows
  -- that message, trimmed, and the id of the request, if there is one.
  pub boundary-shows :
      (params : Params) (fallback : String)
      → params.fallback_message ≡ some fallback
      → non_blank fallback ≡ true
      → (quiz_boundary (error_response (create_grpc_error_response r params)) ≡ record {
        message = trim fallback;
        request_id = (normalize_grpc_http_error r params).request_id;
      })
        × (me_boundary (error_response (create_grpc_error_response r params)) ≡ record {
          message = trim fallback;
          request_id = (normalize_grpc_http_error r params).request_id;
        })
        × (edit_boundary (error_response (create_grpc_error_response r params)) ≡ record {
          message = trim fallback;
          request_id = (normalize_grpc_http_error r params).request_id;
        })
  unfolding error_boundary edit_error_boundary create_grpc_error_response normalize_grpc_http_error
      normalized_answer
  boundary-shows params fallback h k =
      let id = id-present params in
      (
        λ i. record {
          message = text_or_shown "クイズ画面の表示中にエラーが発生しました。" params fallback h k i;
          request_id = id i;
        },
        λ i. record {
          message = text_or_shown "マイページの表示中にエラーが発生しました。" params fallback h k i;
          request_id = id i;
        },
        λ i. record {
          message = text_or_shown "問題編集画面の表示中にエラーが発生しました。" params fallback h k i;
          request_id = id i;
        },
      )
