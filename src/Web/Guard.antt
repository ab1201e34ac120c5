-- ===== src/Web/Guard.antt =====
-- Who gets what from the web server of handlers.go.
use plv.Prelude.{
  ◌≡◌, refl, inl, inr, Bool, true, false, ◌||◌, if◌then◌else◌, [], ◌∷◌, Option, none, some, arith,
  Bool-cases,
}
use mathlib.Core.Option
use mathlib.Core.Path.{subst}
use plv.Go.Text.{Text, lit, text_eq, text_eq_iff, elem}
use plv.Store.{Store}
use plv.Web.Session.{Sessions, create, remove}
use plv.Web.Message.{Request, Response}
use plv.Web.Api.{handle_records, handle_detail}
use plv.Web.{
  log_out, Site, Outside, has_credentials, log_in, handle_login, handle_logout, Route, login,
  logout, favicon, index, records, detail, stats, suggest, status, server_conf, version, route_of,
  handle, serve_mux, is_public, has_session, turn_away, auth_middleware, is_guarded, serve,
}

-- A public path leads to the login page or the icon.
data IsOpen : Route → Type 0 where
  login_page : IsOpen Route.login
  icon : IsOpen Route.favicon

logout_guarded : is_public (lit "/logout") ≡ false
unfolding is_public elem lit text_eq
logout_guarded = refl

-- A public path that is not the login's is one of the icon's.
icon_path :
    (path : Text)
    → is_public path ≡ true
    → text_eq path (lit "/login") ≡ false
    → elem path (lit "/favicon.svg" ∷ lit "/favicon.ico" ∷ []) ≡ true
unfolding is_public elem
icon_path path h n =
    ground (arith, text_eq_iff path (lit "/login"), text_eq_iff (lit "/login") path)

public_route : (path : Text) → is_public path ≡ true → IsOpen (route_of path)
unfolding route_of
public_route path h = elim (Bool-cases (text_eq path (lit "/login"))) [
  | inl e ↦ rw e IsOpen.login_page
  | inr n ↦ elim (Bool-cases (text_eq path (lit "/logout"))) [
    | inl e ↦
        let q : path ≡ lit "/logout" = (text_eq_iff path (lit "/logout")).0 e in
        let p : is_public (lit "/logout") ≡ true = subst (λ t. is_public t ≡ true) q h in
        ground (arith, logout_guarded)
    | inr m ↦ rw (n, m, icon_path path h n) IsOpen.icon
  ]
]

-- One answer for every store.
abbrev pub Blind : Outside → Site → Request → Type 0
Blind o w r =
    (ss : Sessions) × (res : Response) × ((s : Store)
      → serve o (record w { store = s }) r ≡ some (record w { sessions = ss; store = s }, res))

open-Blind :
    (o : Outside) (w : Site) (r : Request) (route : Route)
    → IsOpen route
    → (ss : Sessions) × (res : Response) × ((s : Store)
        → handle o route (record w { store = s }) r
          ≡ some (record w { sessions = ss; store = s }, res))
unfolding handle handle_login log_in
open-Blind o w r route IsOpen.login_page =
    ((handle_login o w r).0.sessions, (handle_login o w r).1, λ s. ground arith)
open-Blind o w r route IsOpen.icon = (w.sessions, _, λ s. refl)

guarded-Blind :
    (o : Outside) (w : Site) (r : Request)
    → is_guarded w.auth ≡ true
    → has_session o w r ≡ false
    → (b : Bool) → is_public r.path ≡ b
    → Blind o w r
unfolding serve auth_middleware serve_mux has_session
guarded-Blind o w r g n true p =
    let (ss, res, f) = open-Blind o w r (route_of r.path) (public_route r.path p) in
    (ss, res, λ s. rw (g, p) (f s))
guarded-Blind o w r g n false p = (w.sessions, turn_away r, λ s. rw (g, p, n) refl)

-- Where authentication is on, a request without a session that is still valid learns nothing of the
-- store and changes nothing in it: there is one answer, the same for every store, and it is never a
-- panic.
pub serve-Blind :
    (o : Outside) (w : Site) (r : Request)
    → is_guarded w.auth ≡ true
    → has_session o w r ≡ false
    → Blind o w r
serve-Blind o w r g n = guarded-Blind o w r g n (is_public r.path) refl

-- The state after a request is that before, but for a login with credentials or a logout.
pub data Changes (o : Outside) (w : Site) (r : Request) : Site → Type 0 where
  nothing : Changes o w r w
  logged_in :
      has_credentials o w.auth r ≡ true
      → Changes o w r (record w { sessions = create o.env.now o.random w.sessions })
  logged_out :
      (token : Text)
      → r.session ≡ some token
      → Changes o w r (record w { sessions = remove token w.sessions })

abbrev pub IsEarned : Outside → Site → Request → Option (Site × Response) → Type 0
IsEarned o w r none = Unit
IsEarned o w r (some (v, res)) = Changes o w r v

read-IsEarned :
    (o : Outside) (w : Site) (r : Request) (x : Option Response)
    → IsEarned o w r (Option.map (λ res. (w, res)) x)
read-IsEarned o w r none = tt
read-IsEarned o w r (some res) = Changes.nothing

IsEarned-if :
    (o : Outside) (w : Site) (r : Request) (b : Bool) (x y : Option (Site × Response))
    → (b ≡ true → IsEarned o w r x)
    → IsEarned o w r y
    → IsEarned o w r (if b then x else y)
IsEarned-if o w r true x y hx hy = hx refl
IsEarned-if o w r false x y hx hy = hy

login-Changes : (o : Outside) (w : Site) (r : Request) → Changes o w r (handle_login o w r).0
unfolding handle_login log_in
login-Changes o w r = elim (Bool-cases (text_eq r.method (lit "GET"))) [
  | inl e ↦ rw e Changes.nothing
  | inr n ↦ elim (Bool-cases (text_eq r.method (lit "POST"))) [
    | inr m ↦ rw (n, m) Changes.nothing
    | inl e ↦ elim (Bool-cases (has_credentials o w.auth r)) [
      | inl c ↦ rw (n, e, c) (Changes.logged_in c)
      | inr c ↦ rw (n, e, c) Changes.nothing
    ]
  ]
]

logout-Changes :
    (o : Outside) (w : Site) (r : Request) (session : Option Text)
    → r.session ≡ session
    → Changes o w r (log_out session w)
unfolding log_out
logout-Changes o w r none e = Changes.nothing
logout-Changes o w r (some token) e = Changes.logged_out token e

handle-IsEarned :
    (o : Outside) (w : Site) (r : Request) (route : Route) → IsEarned o w r (handle o route w r)
unfolding handle handle_logout
handle-IsEarned o w r login = login-Changes o w r
handle-IsEarned o w r logout = logout-Changes o w r r.session refl
handle-IsEarned o w r favicon = Changes.nothing
handle-IsEarned o w r index = Changes.nothing
handle-IsEarned o w r records = read-IsEarned o w r (handle_records w.store r)
handle-IsEarned o w r detail = read-IsEarned o w r (handle_detail o.env w.store r)
handle-IsEarned o w r stats = Changes.nothing
handle-IsEarned o w r suggest = Changes.nothing
handle-IsEarned o w r status = Changes.nothing
handle-IsEarned o w r server_conf = Changes.nothing
handle-IsEarned o w r version = Changes.nothing

-- Whatever a request asks, the server is afterwards as it was, but for the session of a login whose
-- name and password are right, or without the session that a logout named. The store never changes.
pub serve-IsEarned : (o : Outside) (w : Site) (r : Request) → IsEarned o w r (serve o w r)
unfolding serve auth_middleware serve_mux
serve-IsEarned o w r =
    let plain = handle-IsEarned o w r (route_of r.path) in
    IsEarned-if o w r (is_guarded w.auth) _ _
      (λ g.
        IsEarned-if o w r (is_public r.path || has_session o w r) _ _ (λ q. plain) Changes.nothing)
      plain
