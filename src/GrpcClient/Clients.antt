-- ===== src/GrpcClient/Clients.antt =====
-- The clients of the three services and the calls through them: client/app/grpc/client.server.ts.
pub mod Laws
use history_quiz.Prelude.{
  ℕ, String, ◌≡◌, refl, ap, Bool, true, false, Option, none, some, List, map, if◌then◌else◌,
}
use Prim.Native.String
use history_quiz.Prelude.Letters.{UpperCase}
use history_quiz.Errors.{Result, returned, thrown, Thrown, error, ◌>>=◌}
use history_quiz.RequestId.{Random}
use history_quiz.Observability.{Metrics}
use history_quiz.GrpcClient.{
  GrpcCallContext, RpcRequest, GrpcCallResult, UnaryMethod, CallOutside, invoke_unary,
}
use history_quiz.GrpcClient.Settings.{
  ChannelCredentials, create_channel_credentials, resolve_grpc_address, QuizMethod, QuestionMethod,
  UserMethod, quiz_rpc_method_name, question_rpc_method_name, user_rpc_method_name,
  required_proto_relative_paths, resolve_proto_root,
}

-- A service's constructor, of the address and the credentials.
abbrev pub ServiceClientConstructor : Type 0 → Type 0
ServiceClientConstructor A = String → ChannelCredentials → A

-- The three constructors of the loaded package, each `none` where the package lacks it.
pub record LoadedGrpcPackage (N Q V : Type 0) : Type 0 where
  pub question : Option (ServiceClientConstructor N)
  pub quiz : Option (ServiceClientConstructor Q)
  pub user : Option (ServiceClientConstructor V)

pub record GrpcClients (N Q V : Type 0) : Type 0 where
  pub question : N
  pub quiz : Q
  pub user : V

-- assertServerOnly; `has_window` is whether `window` is defined.
unfoldable pub assert_server_only : (has_window : Bool) → Result (Unit {0})
assert_server_only has_window =
    if has_window then thrown (error "gRPC クライアントはサーバー側（loader/action）専用です。") else returned tt

-- requireServiceConstructor
unfoldable pub require_service_constructor {ℓ} :
    {K : Type ℓ} → Option K → (name : String) → Result K
require_service_constructor none name = thrown (error (String.◌++◌ "gRPC サービス定義の解決に失敗しました: " name))
require_service_constructor (some constructor) name = returned constructor

-- What the creation of the clients meets outside: the environment's settings, the two roots resolved
-- from the working directory, the file system, path.join, and loadSync with loadPackageDefinition.
pub record ClientsOutside (N Q V : Type 0) : Type 0 where
  pub has_window : Bool
  pub address : Option String
  pub tls : Option String
  pub proto_root_setting : Option String
  pub beside : String
  pub inside : String
  pub exists_in : String → String → Bool
  pub join_path : String → String → String
  pub load : (files : List String) (include_dir : String) → Result (LoadedGrpcPackage N Q V)

module _ (u : UpperCase) (random : Random) (default_timeout_ms : ℕ) (outside : CallOutside)
    {B A : Type 0} where
  -- invokeUnary with a method of a client.
  abbrev pub call_with {ℓ} :
      {K : Type ℓ}
      → Result K
      → (K → UnaryMethod B A)
      → (rpc : String) → GrpcCallContext
      → RpcRequest B
      → Metrics
      → Result (GrpcCallResult A) × Metrics
  call_with (thrown e) method rpc call_context request metrics = (thrown e, metrics)
  call_with (returned client) method rpc call_context request metrics =
      let called =
        invoke_unary u random default_timeout_ms outside (method client) rpc call_context request
          metrics in
      (called.0, called.1)

module _ {N Q V : Type 0} where
  -- loadGrpcPackage
  unfoldable pub load_grpc_package : ClientsOutside N Q V → Result (LoadedGrpcPackage N Q V)
  load_grpc_package out =
      resolve_proto_root out.exists_in out.proto_root_setting out.beside out.inside >>= λ root.
      out.load (map (λ path. out.join_path root path) required_proto_relative_paths) root

  -- createGrpcClients
  unfoldable pub create_grpc_clients : ClientsOutside N Q V → Result (GrpcClients N Q V)
  create_grpc_clients out = load_grpc_package out >>= λ loaded.
      let address = resolve_grpc_address out.address in
      let credentials = create_channel_credentials out.tls in
      require_service_constructor loaded.quiz "QuizService" >>= λ quiz_service.
      require_service_constructor loaded.question "QuestionService" >>= λ question_service.
      require_service_constructor loaded.user "UserService" >>= λ user_service. returned (record {
        question = question_service address credentials;
        quiz = quiz_service address credentials;
        user = user_service address credentials;
      })

  abbrev pub store_clients :
      Result (GrpcClients N Q V) → Result (GrpcClients N Q V) × Option (GrpcClients N Q V)
  store_clients (returned clients) = (returned clients, some clients)
  store_clients (thrown e) = (thrown e, none)

  abbrev pub cached_or_created :
      ClientsOutside N Q V
      → Option (GrpcClients N Q V)
      → Result (GrpcClients N Q V) × Option (GrpcClients N Q V)
  cached_or_created out (some clients) = (returned clients, some clients)
  cached_or_created out none = store_clients (create_grpc_clients out)

  abbrev pub if_server :
      Result (Unit {0})
      → ClientsOutside N Q V
      → Option (GrpcClients N Q V)
      → Result (GrpcClients N Q V) × Option (GrpcClients N Q V)
  if_server (returned _) out cached = cached_or_created out cached
  if_server (thrown e) out cached = (thrown e, cached)

  -- getGrpcClients, with `cachedClients` before and after.
  unfoldable pub get_grpc_clients :
      ClientsOutside N Q V
      → (cached : Option (GrpcClients N Q V))
      → Result (GrpcClients N Q V) × Option (GrpcClients N Q V)
  get_grpc_clients out cached = if_server (assert_server_only out.has_window) out cached

  module _ (u : UpperCase) (random : Random) (default_timeout_ms : ℕ) (outside : CallOutside)
      {B A : Type 0} where
    -- callQuizService, callQuestionService and callUserService, of what getGrpcClients gives;
    -- `method_of` is the client's property of the method's name.
    unfoldable pub call_quiz_service :
        Result (GrpcClients N Q V)
        → (method_of : QuizMethod → Q → UnaryMethod B A) → GrpcCallContext
        → QuizMethod
        → RpcRequest B
        → Metrics
        → Result (GrpcCallResult A) × Metrics
    call_quiz_service clients method_of call_context method request metrics =
        call_with u random default_timeout_ms outside (clients >>= λ c. returned c.quiz)
          (method_of method) (quiz_rpc_method_name method) call_context request metrics

    unfoldable pub call_question_service :
        Result (GrpcClients N Q V)
        → (method_of : QuestionMethod → N → UnaryMethod B A) → GrpcCallContext
        → QuestionMethod
        → RpcRequest B
        → Metrics
        → Result (GrpcCallResult A) × Metrics
    call_question_service clients method_of call_context method request metrics =
        call_with u random default_timeout_ms outside (clients >>= λ c. returned c.question)
          (method_of method) (question_rpc_method_name method) call_context request metrics

    unfoldable pub call_user_service :
        Result (GrpcClients N Q V)
        → (method_of : UserMethod → V → UnaryMethod B A) → GrpcCallContext
        → UserMethod
        → RpcRequest B
        → Metrics
        → Result (GrpcCallResult A) × Metrics
    call_user_service clients method_of call_context method request metrics =
        call_with u random default_timeout_ms outside (clients >>= λ c. returned c.user)
          (method_of method) (user_rpc_method_name method) call_context request metrics
