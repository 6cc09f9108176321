-- ===== src/RequestId.antt =====
-- Request ids: createRequestId of client/app/grpc/client.server.ts.
use history_quiz.Prelude.{ℕ, String, Option, none, some, List}
use history_quiz.Session.Tokens.{to_hex}

-- One call of the random source: `uuid` is `none` where node:crypto has no randomUUID.
pub record Random : Type 0 where
  pub uuid : Option String
  pub random_bytes : List ℕ

-- createRequestId
unfoldable pub create_request_id : Random → String
unfolding to_hex
create_request_id random = elim random.uuid [ some id ↦ id | none ↦ to_hex random.random_bytes ]
