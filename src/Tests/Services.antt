-- ===== src/Tests/Services.antt =====
-- The page of a user whose statistics come last or fail, and the clients of the services.
use history_quiz.Prelude.{
  ltb, ℕ, String, ◌≡◌, refl, Bool, true, false, Option, none, some, List, [], ◌∷◌,
}
use history_quiz.Prelude.Text.{trim, non_blank}
use history_quiz.Errors.{ServiceError, number, Result, returned, service_error, grpc_call_error}
use history_quiz.GrpcError.Normalize.{throw_grpc_error_response}
use history_quiz.RequestId.{create_request_id}
use history_quiz.Session.{SessionUser, get_user, get_user_session, to_session_non_empty_string}
use history_quiz.Observability.Laws.{no_metrics}
use history_quiz.GrpcClient.{CallOutside, failed, replied}
use history_quiz.GrpcClient.Calls.{send_unary}
use history_quiz.GrpcClient.Settings.{
  resolve_proto_root, distinct_roots, first_complete, resolve_grpc_address,
  create_channel_credentials,
}
use history_quiz.GrpcClient.Clients.{
  LoadedGrpcPackage, GrpcClients, ClientsOutside, assert_server_only, require_service_constructor,
  load_grpc_package, create_grpc_clients, get_grpc_clients,
}
use history_quiz.GrpcClient.Clients.Laws.{get_grpc_clients-once}
use history_quiz.Me.{MeCall, attempts_call, stats_call, questions_call, MeMethods, load_me}
use history_quiz.Me.Laws.{IsAnswered, Replies, page_of_replies, load_me-page}
use history_quiz.Me.Failures.{load_me-failure}
use history_quiz.Tests.World.{world, storage, random, request_with, alice_session}

-- Doubles, which are finite below 100.
abbrev finite : ℕ → Bool
finite n = ltb n 100

abbrev call_outside : MeCall → CallOutside
call_outside _ = record { node_env = none; deadline_from = 10; started_at = 11; ended_at = 15 }

abbrev methods : MeMethods ℕ
methods = record {
  attempts = λ _ _ _. replied (record { attempts = []; page_info = none });
  stats = λ _ _ _. replied (record {
    stats = some (record { total_attempts = "3"; correct_attempts = "2"; accuracy = 66 });
  });
  questions = λ _ _ _. replied (record { page_info = none; questions = [] });
}

abbrev alice : SessionUser
alice = record { user_id = "alice" }

abbrev replies : Replies world finite 0 random 3000 call_outside methods alice
unfolding send_unary
replies = record {
  attempts = record { attempts = []; page_info = none };
  stats = record {
    stats = some (record { total_attempts = "3"; correct_attempts = "2"; accuracy = 66 });
  };
  questions = record { page_info = none; questions = [] };
  attempts_replied = refl;
  stats_replied = refl;
  questions_replied = refl;
}

abbrev stats_last : List MeCall
stats_last = questions_call ∷ attempts_call ∷ stats_call ∷ []

all-IsAnswered : (call : MeCall) → IsAnswered stats_last call
all-IsAnswered attempts_call = refl
all-IsAnswered stats_call = refl
all-IsAnswered questions_call = refl

load_me-page_example :
    (load_me world finite 0 storage random
      (request_with (some alice_session))
      3000
      call_outside
      methods
      stats_last
      no_metrics).0
    ≡ some
        (returned (page_of_replies world finite 0 random 3000 call_outside methods alice replies))
unfolding get_user get_user_session to_session_non_empty_string trim
load_me-page_example =
    load_me-page world finite 0 storage random (request_with (some alice_session)) 3000 call_outside
      methods alice replies stats_last no_metrics refl all-IsAnswered

abbrev unavailable : ServiceError
unavailable = record { code = number 14; details = none; metadata = none }

abbrev failing : MeMethods ℕ
failing = record methods { stats = λ _ _ _. failed unavailable }

load_me-failure_example :
    (load_me world finite 0 storage random
      (request_with (some alice_session))
      3000
      call_outside
      failing
      (questions_call ∷ stats_call ∷ [])
      no_metrics).0
    ≡ some (
        throw_grpc_error_response world (record {
          error = grpc_call_error (service_error unavailable) "u1";
          fallback_message = some "マイページの取得に失敗しました。時間をおいて再試行してください。";
          request_id = some "u1";
        }))
unfolding get_user get_user_session to_session_non_empty_string trim send_unary create_request_id
load_me-failure_example =
    load_me-failure world finite 0 storage random (request_with (some alice_session)) 3000
      call_outside failing alice (questions_call ∷ stats_call ∷ []) no_metrics unavailable refl refl

-- A service's client is its address.
abbrev loaded : LoadedGrpcPackage String String String
loaded = record {
  question = some (λ address credentials. address);
  quiz = some (λ address credentials. address);
  user = some (λ address credentials. address);
}

abbrev clients_outside : Option String → ClientsOutside String String String
clients_outside address = record {
  has_window = false;
  address = address;
  tls = none;
  proto_root_setting = some "/proto";
  beside = "/b";
  inside = "/i";
  exists_in = λ root path. true;
  join_path = λ root path. path;
  load = λ files root. returned loaded;
}

abbrev made : GrpcClients String String String
made = record { question = "backend:1"; quiz = "backend:1"; user = "backend:1" }

get_grpc_clients-once_example :
    ◌≡◌ {A = Result (GrpcClients String String String) × Option (GrpcClients String String String)}
      (get_grpc_clients
        (clients_outside (some "other:2"))
        (get_grpc_clients (clients_outside (some "backend:1")) none).1)
      (returned made, some made)
unfolding get_grpc_clients assert_server_only create_grpc_clients load_grpc_package
    require_service_constructor resolve_proto_root distinct_roots first_complete
    resolve_grpc_address create_channel_credentials trim non_blank
get_grpc_clients-once_example =
    get_grpc_clients-once (clients_outside (some "backend:1")) (clients_outside (some "other:2"))
      none made refl refl
