-- ===== src/GrpcClient/Settings.antt =====
-- The settings and methods of the gRPC client: client/app/grpc/client.server.ts.
use history_quiz.Prelude.{
  ℕ, String, Bool, ◌||◌, Option, none, some, List, [], ◌∷◌, ◌==◌, any, all, if◌then◌else◌,
}
use history_quiz.Prelude.ParseInt.{positive_setting}
use history_quiz.Prelude.Text.{is_empty, trim, non_blank}
use history_quiz.Errors.{Result, returned, thrown, error}

-- resolveGrpcAddress
unfoldable pub resolve_grpc_address : (raw : Option String) → String
resolve_grpc_address none = "127.0.0.1:50051"
resolve_grpc_address (some raw) = if non_blank raw then trim raw else "127.0.0.1:50051"

-- resolveGrpcTimeoutMs
unfoldable pub resolve_grpc_timeout_ms : (raw : Option String) → ℕ
resolve_grpc_timeout_ms raw = positive_setting raw 3000

pub data ChannelCredentials : Type 0 where
  ssl insecure : ChannelCredentials

-- createChannelCredentials
unfoldable pub create_channel_credentials : (tls : Option String) → ChannelCredentials
create_channel_credentials none = insecure
create_channel_credentials (some raw) = if raw == "true" then ssl else insecure

pub data QuizMethod : Type 0 where
  get_question submit_answer : QuizMethod

pub data QuestionMethod : Type 0 where
  create_question get_my_question list_my_questions update_question : QuestionMethod

pub data UserMethod : Type 0 where
  get_my_stats list_my_attempts : UserMethod

abbrev pub quiz_rpc_method_name : QuizMethod → String
quiz_rpc_method_name get_question = "/historyquiz.quiz.v1.QuizService/GetQuestion"
quiz_rpc_method_name submit_answer = "/historyquiz.quiz.v1.QuizService/SubmitAnswer"

abbrev pub question_rpc_method_name : QuestionMethod → String
question_rpc_method_name create_question = "/historyquiz.question.v1.QuestionService/CreateQuestion"
question_rpc_method_name get_my_question = "/historyquiz.question.v1.QuestionService/GetMyQuestion"
question_rpc_method_name list_my_questions =
    "/historyquiz.question.v1.QuestionService/ListMyQuestions"
question_rpc_method_name update_question = "/historyquiz.question.v1.QuestionService/UpdateQuestion"

abbrev pub user_rpc_method_name : UserMethod → String
user_rpc_method_name get_my_stats = "/historyquiz.user.v1.UserService/GetMyStats"
user_rpc_method_name list_my_attempts = "/historyquiz.user.v1.UserService/ListMyAttempts"

abbrev pub required_proto_relative_paths : List String
required_proto_relative_paths =
    "historyquiz/quiz/v1/quiz_service.proto" ∷ "historyquiz/question/v1/question_service.proto"
    ∷ "historyquiz/user/v1/user_service.proto" ∷ []

-- The map and filter of the candidates: not blank, and each only where it stands first. `seen` are
-- the candidates before.
unfoldable pub distinct_roots : (seen roots : List String) → List String
distinct_roots seen [] = []
distinct_roots seen (root ∷ roots) =
    let value = trim root in
    let rest = distinct_roots (value ∷ seen) roots in
    if is_empty value || any (λ s. s == value) seen then rest else value ∷ rest

unfoldable pub first_complete : (exists_in : String → String → Bool) → List String → Result String
first_complete exists_in [] = thrown (
    error
      "proto ルートを解決できません。GRPC_PROTO_ROOT を設定するか、historyquiz/quiz/v1/quiz_service.proto, historyquiz/question/v1/question_service.proto, historyquiz/user/v1/user_service.proto が存在する場所で起動してください。")
first_complete exists_in (root ∷ roots) =
    let rest = first_complete exists_in roots in
    if all (exists_in root) required_proto_relative_paths then returned root else rest

abbrev pub or_blank : Option String → String
or_blank none = ""
or_blank (some s) = s

-- resolveProtoRoot; `exists_in root path` is whether the file is there, `beside` and `inside` are
-- the paths resolved from the working directory.
unfoldable pub resolve_proto_root :
    (exists_in : String → String → Bool)
    → (configured : Option String) → (beside inside : String) → Result String
resolve_proto_root exists_in configured beside inside =
    first_complete exists_in (distinct_roots [] (or_blank configured ∷ beside ∷ inside ∷ []))
