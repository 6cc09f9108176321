-- ===== src/Session/Secrets.antt =====
-- The cookie's signing secrets: resolveSessionSecrets of client/app/services/session.server.ts.
pub mod Laws
use history_quiz.Prelude.{
  String, Bool, false, Option, none, some, List, [], ◌∷◌, ◌==◌, if◌then◌else◌,
}
use history_quiz.Prelude.Text.{is_empty, trim, non_blank, split_on}
use history_quiz.Errors.{Result, returned, thrown, error}

-- .map(value => value.trim()).filter(value => value.length > 0)
unfoldable pub present_texts : List String → List String
present_texts [] = []
present_texts (s ∷ ss) =
    let rest = present_texts ss in if is_empty (trim s) then rest else trim s ∷ rest

abbrev pub is_production : Option String → Bool
is_production none = false
is_production (some e) = e == "production"

abbrev dev_secrets : Option String → Result (List String)
dev_secrets node_env =
    if is_production node_env
    then thrown (error "SESSION_SECRET が未設定です。production では必須です。")
    else returned ("dev-only-session-secret-change-me" ∷ [])

abbrev or_dev_secrets : List String → Option String → Result (List String)
or_dev_secrets [] node_env = dev_secrets node_env
or_dev_secrets (s ∷ ss) node_env = returned (s ∷ ss)

-- resolveSessionSecrets, of SESSION_SECRET and NODE_ENV.
unfoldable pub resolve_session_secrets :
    (session_secret node_env : Option String) → Result (List String)
unfolding present_texts split_on
resolve_session_secrets none node_env = dev_secrets node_env
resolve_session_secrets (some raw) node_env =
    if non_blank raw
    then or_dev_secrets (present_texts (split_on b',' raw)) node_env
    else dev_secrets node_env
