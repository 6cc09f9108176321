-- ===== src/Auth/Laws.antt =====
-- Where a redirect can lead.
use Prim.Native.Char.{code}
use Prim.Native.String
use history_quiz.Prelude.{
  ap, ◌∙◌, String, ◌≡◌, ◌≢◌, ◌⊎◌, inl, inr, refl, Option, none, some, nat_eq, arith, Bool-cases,
}
use history_quiz.Runtime.{Runtime}
use history_quiz.Errors.{returned, thrown, redirect_response}
use history_quiz.Web.{Request, Url}
use history_quiz.Session.{CookieStorage, SessionUser, get_user}
use history_quiz.Auth.{
  login_path, user_or_redirect, sanitize_redirect_to, build_login_url, redirect,
  require_authenticated_user,
}

-- One slash at the front, and no second one.
abbrev pub HasOneSlash : String → Type 0
HasOneSlash String.[] = ⊥
HasOneSlash (String.◌∷◌ c String.[]) = code c ≡ b'/'
HasOneSlash (String.◌∷◌ c (String.◌∷◌ d s)) = (code c ≡ b'/') × (code d ≢ b'/')

-- A redirect target with one slash at the front is kept as it is.
pub sanitize_redirect_to-keeps :
    (s fallback : String) → HasOneSlash s → sanitize_redirect_to (some s) fallback ≡ s
unfolding sanitize_redirect_to
sanitize_redirect_to-keeps String.[] f h = absurd h
sanitize_redirect_to-keeps (String.◌∷◌ c String.[]) f h = ground arith
sanitize_redirect_to-keeps (String.◌∷◌ c (String.◌∷◌ d s)) f h = ground arith

-- A target is a text with one slash at the front and is kept, or it is another and gives way.
abbrev pub IsTarget : (s fallback t : String) → Type 0
IsTarget s fallback t = (HasOneSlash s × (t ≡ s)) ⊎ ((¬ (HasOneSlash s)) × (t ≡ fallback))

pub sanitize_redirect_to-IsTarget :
    (s fallback : String) → IsTarget s fallback (sanitize_redirect_to (some s) fallback)
unfolding sanitize_redirect_to
sanitize_redirect_to-IsTarget String.[] f = inr ((λ h. h), refl)
sanitize_redirect_to-IsTarget (String.◌∷◌ c String.[]) f =
    elim (Bool-cases (nat_eq (code c) b'/')) [
      | inl e ↦ inl (ground arith, rw e)
      | inr e ↦ inr ((λ h. ground arith), rw e)
    ]
sanitize_redirect_to-IsTarget (String.◌∷◌ c (String.◌∷◌ d s)) f =
    elim (Bool-cases (nat_eq (code c) b'/')) [
      | inl e ↦ elim (Bool-cases (nat_eq (code d) b'/')) [
        | inl g ↦ inr ((λ h. ground arith), rw (e, g))
        | inr g ↦ inl ((ground arith, ground arith), rw (e, g))
      ]
      | inr e ↦ inr ((λ h. ground arith), rw e)
    ]

-- The page to come back to after a login: the request's own path and query, or the root.
abbrev pub IsReturnPath : Url → String → Type 0
IsReturnPath url t = IsTarget (String.◌++◌ url.pathname url.search) "/" t

return_path-HasOneSlash : (url : Url) (t : String) → IsReturnPath url t → HasOneSlash t
return_path-HasOneSlash url t (inl (h, e)) = rw e h
return_path-HasOneSlash url t (inr (h, e)) = rw e refl

build_login_url-of_HasOneSlash :
    (r : Runtime) (t : String)
    → HasOneSlash t
    → build_login_url r (some t)
      ≡ String.◌++◌ login_path (String.◌++◌ "?redirectTo=" (r.form_encode t))
unfolding build_login_url
build_login_url-of_HasOneSlash r t h = rw (sanitize_redirect_to-keeps t "/" h)

user_or_redirect-cases :
    (o : Option SessionUser) (url : String)
    → ((user : SessionUser) × (o ≡ some user) × (user_or_redirect o url ≡ returned user))
      ⊎ ((o ≡ none) × (user_or_redirect o url ≡ thrown (redirect_response (redirect url))))
user_or_redirect-cases (some user) url = inl (user, refl, refl)
user_or_redirect-cases none url = inr (refl, refl)

-- A page that needs a login runs for the session's user. Any other request is redirected to the
-- login page, with a target that is the request's own path and query if these begin with exactly one
-- slash, and the root otherwise.
pub require_authenticated_user-cases :
    (r : Runtime) {C : Type 0} (storage : CookieStorage C) (request : Request C)
    → ((user : SessionUser) × (get_user storage request ≡ some user)
        × (require_authenticated_user r storage request ≡ returned user))
      ⊎ ((t : String) × (get_user storage request ≡ none)
          × IsReturnPath request.url t
          × (require_authenticated_user r storage request
              ≡ thrown (
                  redirect_response (
                    redirect
                      (String.◌++◌ login_path (String.◌++◌ "?redirectTo=" (r.form_encode t)))))))
unfolding require_authenticated_user
require_authenticated_user-cases r storage request =
    let t = sanitize_redirect_to (some (String.◌++◌ request.url.pathname request.url.search)) "/" in
    let path =
      sanitize_redirect_to-IsTarget (String.◌++◌ request.url.pathname request.url.search) "/" in
    elim (user_or_redirect-cases (get_user storage request) (build_login_url r (some t))) [
      | inl found ↦ inl found
      | inr (e, sent) ↦ inr (
        t,
        e,
        path,
        sent
            ∙ ap (λ u. thrown (redirect_response (redirect u)))
                (build_login_url-of_HasOneSlash r t (return_path-HasOneSlash request.url t path)),
      )
    ]
