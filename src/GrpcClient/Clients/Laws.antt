-- ===== src/GrpcClient/Clients/Laws.antt =====
-- The clients are made once.
use history_quiz.Prelude.{◌≡◌, false, Option, none, some}
use history_quiz.Errors.{Result, returned, thrown}
use history_quiz.GrpcClient.Clients.{
  GrpcClients, ClientsOutside, assert_server_only, create_grpc_clients, store_clients,
  cached_or_created, if_server, get_grpc_clients,
}

module _ {N Q V : Type 0} where
  kept-store :
      (m : Result (GrpcClients N Q V)) (clients : GrpcClients N Q V)
      → (store_clients m).0 ≡ returned clients
      → (store_clients m).1 ≡ some clients
  kept-store (returned c) clients h = cc
  kept-store (thrown e) clients h = absurd (cc)

  kept-created :
      (out : ClientsOutside N Q V) (cached : Option (GrpcClients N Q V))
      (clients : GrpcClients N Q V)
      → (cached_or_created out cached).0 ≡ returned clients
      → (cached_or_created out cached).1 ≡ some clients
  kept-created out none clients h = kept-store (create_grpc_clients out) clients h
  kept-created out (some c) clients h = cc

  kept-server :
      (out : ClientsOutside N Q V) (cached : Option (GrpcClients N Q V)) (m : Result (Unit {0}))
      (clients : GrpcClients N Q V)
      → (if_server m out cached).0 ≡ returned clients
      → (if_server m out cached).1 ≡ some clients
  kept-server out cached (returned x) clients h = kept-created out cached clients h
  kept-server out cached (thrown e) clients h = absurd (cc)

  -- The clients are made once: after a call that gives them, every later call on the server gives
  -- the same ones and keeps them, whatever the environment and the files have become.
  pub get_grpc_clients-once :
      (out later : ClientsOutside N Q V) (cached : Option (GrpcClients N Q V))
      (clients : GrpcClients N Q V)
      → (get_grpc_clients out cached).0 ≡ returned clients
      → later.has_window ≡ false
      → ◌≡◌ {A = Result (GrpcClients N Q V) × Option (GrpcClients N Q V)}
          (get_grpc_clients later (get_grpc_clients out cached).1)
          (returned clients, some clients)
  unfolding get_grpc_clients assert_server_only
  get_grpc_clients-once out later cached clients h w =
      rw (kept-server out cached (assert_server_only out.has_window) clients h, w)
