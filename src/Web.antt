-- ===== src/Web.antt =====
-- handlers.go: the web server. A handler takes the server's state and a request, and gives the new
-- state and the response; a panic, after which net/http drops the connection, is none.
pub mod Identity
pub mod Session
pub mod Message
pub mod Query
pub mod Api
pub mod Guard
pub mod Tables
use plv.Prelude.{
  ℕ, ℤ, pos, negsuc, Bool, true, false, not, ◌&&◌, ◌||◌, if◌then◌else◌, List, [], ◌∷◌, Option, none,
  some,
}
use mathlib.Core.Option
use plv.Go.Text.{Text, lit, text_eq, elem}
use plv.Go.Strconv.{hex_encode}
use plv.Go.Time.{Env}
use plv.Go.Net.{Network}
use plv.Store.{Store}
use plv.Web.Identity.{Build}
use plv.Web.Session.{Sessions, create, is_valid, remove}
use plv.Web.Message.{
  Request, Response, Cookie, Body, form_value, ok, error, redirect, method_not_allowed, not_found,
  is_api_request, secure_request,
}
use plv.Web.Api.{
  handle_records, handle_detail, handle_stats, handle_suggest, handle_server_conf, handle_version,
  handle_status,
}

pub record AuthConfig : Type 0 where
  pub enabled : Bool
  pub username : Text
  pub password_hash : Text

pub record Site : Type 0 where
  pub auth : Option AuthConfig
  pub sessions : Sessions
  pub store : Store

-- What a request finds around it: the clock and the local zone, the next 32 random bytes, bcrypt's
-- comparison of a hash with a password, the embedded files, IPNet's String, and the build.
pub record Outside : Type 0 where
  pub env : Env
  pub random : Text
  pub compare_hash : Text → Text → Bool
  pub web_file : Text → Option Text
  pub show : Network → Text
  pub build : Build

-- An embedded file, or what is answered where there is none.
unfoldable pub serve_file : Outside → Text → Response → Response
serve_file o name missing = elim (o.web_file name) [
  | none ↦ missing
  | some bytes ↦ ok (Body.page bytes)
]

unfoldable pub has_credentials : Outside → Option AuthConfig → Request → Bool
has_credentials o none r = false
has_credentials o (some a) r =
    a.enabled
    && text_eq (form_value r (lit "username")) a.username
    && o.compare_hash a.password_hash (form_value r (lit "password"))

unfoldable pub session_cookie : Request → Text → ℤ → Cookie
session_cookie r value max_age = record {
  value = value;
  secure = secure_request r;
  max_age = max_age;
}

unfoldable pub log_in : Outside → Site → Request → Site × Response
log_in o w r = (
  record w { sessions = create o.env.now o.random w.sessions },
  record (redirect (lit "/")) {
    cookie = some (session_cookie r (hex_encode o.random) (pos 86400));
  },
)

unfoldable pub handle_login : Outside → Site → Request → Site × Response
handle_login o w r =
    if text_eq r.method (lit "GET")
    then (w, serve_file o (lit "web/login.html") (error 500 (lit "internal error")))
    else if not (text_eq r.method (lit "POST"))
    then (w, method_not_allowed)
    else if has_credentials o w.auth r
    then log_in o w r
    else (w, redirect (lit "/login?error=1"))

unfoldable pub log_out : Option Text → Site → Site
log_out none w = w
log_out (some token) w = record w { sessions = remove token w.sessions }

unfoldable pub handle_logout : Site → Request → Site × Response
handle_logout w r = (
  log_out r.session w,
  record (redirect (lit "/login")) { cookie = some (session_cookie r [] (negsuc 0)) },
)

unfoldable pub handle_favicon : Outside → Response
handle_favicon o = serve_file o (lit "web/favicon.svg") not_found

unfoldable pub handle_index : Outside → Request → Response
handle_index o r =
    if text_eq r.path (lit "/")
    then serve_file o (lit "web/index.html") (error 500 (lit "internal error"))
    else not_found

-- The patterns of the mux.
pub data Route : Type 0 where
  login logout favicon index records detail stats suggest status server_conf version : Route

unfoldable pub route_of : Text → Route
route_of path =
    if text_eq path (lit "/login")
    then Route.login
    else if text_eq path (lit "/logout")
    then Route.logout
    else if elem path (lit "/favicon.svg" ∷ lit "/favicon.ico" ∷ [])
    then Route.favicon
    else if text_eq path (lit "/api/records")
    then Route.records
    else if text_eq path (lit "/api/detail")
    then Route.detail
    else if text_eq path (lit "/api/stats")
    then Route.stats
    else if text_eq path (lit "/api/suggest")
    then Route.suggest
    else if text_eq path (lit "/api/status")
    then Route.status
    else if text_eq path (lit "/api/serverconf")
    then Route.server_conf
    else if text_eq path (lit "/api/version")
    then Route.version
    else Route.index

-- What a handler that leaves the state alone answers.
abbrev read : Site → Option Response → Option (Site × Response)
read w = Option.map (λ res. (w, res))

unfoldable pub handle : Outside → Route → Site → Request → Option (Site × Response)
handle o login w r = some (handle_login o w r)
handle o logout w r = some (handle_logout w r)
handle o favicon w r = some (w, handle_favicon o)
handle o index w r = some (w, handle_index o r)
handle o records w r = read w (handle_records w.store r)
handle o detail w r = read w (handle_detail o.env w.store r)
handle o stats w r = some (w, handle_stats w.store r)
handle o suggest w r = some (w, handle_suggest w.store r)
handle o status w r = some (w, handle_status w.store)
handle o server_conf w r = some (w, handle_server_conf o.show w.store)
handle o version w r = some (w, handle_version o.build)

unfoldable pub serve_mux : Outside → Site → Request → Option (Site × Response)
serve_mux o w r = handle o (route_of r.path) w r

unfoldable pub is_public : Text → Bool
is_public path = elem path (lit "/login" ∷ lit "/favicon.svg" ∷ lit "/favicon.ico" ∷ [])

-- The cookie of the request names a session that has not run out.
unfoldable pub has_session : Outside → Site → Request → Bool
has_session o w r = elim r.session [
  | none ↦ false
  | some token ↦ is_valid o.env.now token w.sessions
]

unfoldable pub turn_away : Request → Response
turn_away r =
    if text_eq r.path (lit "/logout")
    then redirect (lit "/login")
    else if is_api_request r
    then error 401 (lit "{\"error\":\"unauthorized\"}")
    else redirect (lit "/login")

unfoldable pub auth_middleware : Outside → Site → Request → Option (Site × Response)
auth_middleware o w r =
    if is_public r.path || has_session o w r then serve_mux o w r else some (w, turn_away r)

unfoldable pub is_guarded : Option AuthConfig → Bool
is_guarded none = false
is_guarded (some a) = a.enabled

-- The handler of NewServer. The middleware that logs changes nothing.
unfoldable pub serve : Outside → Site → Request → Option (Site × Response)
serve o w r = if is_guarded w.auth then auth_middleware o w r else serve_mux o w r
