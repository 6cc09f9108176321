-- ===== src/Oidc/Config.antt =====
-- The OIDC settings, of client/app/services/oidc.server.ts.
use Prim.Native.String
use history_quiz.Prelude.{String, Option, none, some, if◌then◌else◌}
use history_quiz.Prelude.Text.{trim, non_blank}
use history_quiz.Errors.{Result, returned, thrown, oidc_flow_error, ◌>>=◌}
use history_quiz.Web.{Url}
use history_quiz.Oidc.Encoding.{strip_end}

pub record OidcResolvedConfig : Type 0 where
  pub client_id : String
  pub client_secret : String
  pub issuer_url : String
  pub redirect_uri : String
  pub scopes : String

-- value && value.trim().length > 0 ? value.trim() : other
abbrev pub trimmed_or : Option String → String → String
trimmed_or none other = other
trimmed_or (some value) other = if non_blank value then trim value else other

abbrev missing_env : String → String
missing_env name = String.◌++◌ "OIDC 設定が不足しています。環境変数 " (String.◌++◌ name " を設定してください。")

abbrev required : Option String → String → Result String
required none name = thrown (oidc_flow_error (missing_env name) 500)
required (some value) name =
    if non_blank value
    then returned (trim value)
    else thrown (oidc_flow_error (missing_env name) 500)

-- normalizeIssuerUrl
unfoldable pub normalize_issuer_url : String → String
normalize_issuer_url input = strip_end b'/' input

module _ (env : String → Option String) where
  -- readRequiredEnv
  unfoldable pub read_required_env : String → Result String
  read_required_env name = required (env name) name

  -- resolveOidcConfig
  unfoldable pub resolve_oidc_config : Url → Result OidcResolvedConfig
  resolve_oidc_config url = do
    issuer_url ← read_required_env "OIDC_ISSUER_URL"
    client_id ← read_required_env "OIDC_CLIENT_ID"
    client_secret ← read_required_env "OIDC_CLIENT_SECRET"
    returned (record {
      client_id = client_id;
      client_secret = client_secret;
      issuer_url = normalize_issuer_url issuer_url;
      redirect_uri = trimmed_or (env "OIDC_REDIRECT_URI") (String.◌++◌ url.origin "/auth/callback");
      scopes = trimmed_or (env "OIDC_SCOPES") "openid profile email";
    })
