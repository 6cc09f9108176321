-- ===== src/Auth.antt =====
-- Login redirects and the guard for logged-in pages: client/app/services/auth.server.ts.
pub mod Laws
use Prim.Native.Char.{code}
use Prim.Native.String
use history_quiz.Prelude.{
  ℕ, String, Bool, true, false, not, ◌||◌, Option, none, some, List, [], ◌∷◌, nat_eq, if◌then◌else◌,
}
use history_quiz.Prelude.Text.{is_empty, starts_with}
use history_quiz.Runtime.{Runtime}
use history_quiz.Errors.{Response, Result, returned, thrown, redirect_response}
use history_quiz.Web.{Request, Url}
use history_quiz.Session.{CookieStorage, SessionUser, get_user}

abbrev pub login_path : String
login_path = "/login"

abbrev pub default_after_login_path : String
default_after_login_path = "/me"

-- sanitizeRedirectTo; `none` is null or undefined.
unfoldable pub sanitize_redirect_to : Option String → (fallback : String) → String
unfolding starts_with
sanitize_redirect_to none fallback = fallback
sanitize_redirect_to (some redirect_to) fallback =
    if is_empty redirect_to
    then fallback
    else if not (starts_with redirect_to "/") || starts_with redirect_to "//"
    then fallback
    else redirect_to

-- redirect(url)
abbrev pub redirect : String → Response (Unit {0})
redirect url = record { body = tt; headers = ("Location", url) ∷ []; status = 302 }

abbrev pub user_or_redirect : Option SessionUser → String → Result SessionUser
user_or_redirect (some user) url = returned user
user_or_redirect none url = thrown (redirect_response (redirect url))

module _ (r : Runtime) where
  -- buildLoginUrl; `form_encode` is what URLSearchParams.toString makes of a value.
  unfoldable pub build_login_url : Option String → String
  build_login_url redirect_to =
      String.◌++◌ login_path
        (String.◌++◌ "?redirectTo=" (r.form_encode (sanitize_redirect_to redirect_to "/")))

  -- requireAuthenticatedUser
  unfoldable pub require_authenticated_user :
      {C : Type 0} → CookieStorage C → Request C → Result SessionUser
  require_authenticated_user storage request =
      let url = request.url in
      let redirect_to = sanitize_redirect_to (some (String.◌++◌ url.pathname url.search)) "/" in
      user_or_redirect (get_user storage request) (build_login_url (some redirect_to))

-- resolvePostLoginRedirect
unfoldable pub resolve_post_login_redirect : Url → (fallback : String) → String
unfolding sanitize_redirect_to
resolve_post_login_redirect url fallback =
    sanitize_redirect_to (url.search_param "redirectTo") fallback
