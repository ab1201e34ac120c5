-- ===== src/Startup/Access.antt =====
-- resolveAuth of main.go with the web server of handlers.go: who sees what a receiver holds.
use plv.Prelude.{
  ◌≡◌, refl, ◌∙◌, sym, true, false, not, ◌&&◌, ◌||◌, Option, none, some, Option-cases, Bool-cases,
  inl, inr, arith, if_false,
}
use mathlib.Core.Path.{subst}
use mathlib.Core.Option.{some-injective}
use plv.Go.Text.{Text, is_empty}
use plv.Web.{Site, Outside, AuthConfig, has_session, is_guarded}
use plv.Web.Message.{Request}
use plv.Web.Guard.{Blind, serve-Blind}
use plv.Startup.{
  AuthFile, is_truthy, auth_config, create_auth, stored_auth, load_or_create_auth, resolve_auth,
}

IsGuarded-stored :
    (x : Option (Text × Text)) (a : AuthConfig)
    → stored_auth x ≡ some a
    → is_guarded (some a) ≡ true
unfolding stored_auth auth_config is_guarded
IsGuarded-stored none a e = absurd (ground arith)
IsGuarded-stored (some (u, h)) a e = elim (Bool-cases (is_empty u || is_empty h)) [
  | inl p ↦ absurd (ground arith)
  | inr p ↦
      let q : auth_config u h ≡ a =
        some-injective (auth_config u h) a (sym (if_false _ none (some (auth_config u h)) p) ∙ e) in
      subst (λ z. z.enabled ≡ true) q refl
]

IsGuarded-create :
    (f : AuthFile) (hash : Text)
    → f.new_hash ≡ some hash
    → f.mkdir ≡ true
    → f.write ≡ true
    → is_guarded (create_auth f) ≡ true
unfolding create_auth auth_config is_guarded
IsGuarded-create f hash e m w = rw (create_auth, e, m, w) refl

IsGuarded-load :
    (f : AuthFile) (hash : Text)
    → f.new_hash ≡ some hash
    → f.mkdir ≡ true
    → f.write ≡ true
    → is_guarded (load_or_create_auth f) ≡ true
unfolding load_or_create_auth
IsGuarded-load f hash e m w = elim (Option-cases (stored_auth f.stored)) [
  | inl p ↦ rw (load_or_create_auth, p) (IsGuarded-create f hash e m w)
  | inr (a, p) ↦ rw (load_or_create_auth, p) (IsGuarded-stored f.stored a p)
]

IsGuarded-resolve :
    (username hash disable : Text) (f : AuthFile) (new : Text)
    → is_truthy disable ≡ false
    → f.new_hash ≡ some new
    → f.mkdir ≡ true
    → f.write ≡ true
    → is_guarded (resolve_auth username hash disable true f) ≡ true
unfolding resolve_auth auth_config is_guarded
IsGuarded-resolve username hash disable f new d e m w =
    elim (Bool-cases (not (is_empty username) && not (is_empty hash))) [
      | inl p ↦ rw p refl
      | inr p ↦ rw (p, d) (IsGuarded-load f new e m w)
    ]

-- A receiver on which AUTH_DISABLE is not set, and which can make and store a password, asks everyone
-- to log in, whatever its other variables are: a request without a session that is still valid has one
-- answer, the same for every store.
pub resolve_auth-Blind :
    (o : Outside) (v : Site) (r : Request) (username hash disable : Text) (f : AuthFile)
    (new : Text)
    → is_truthy disable ≡ false
    → f.new_hash ≡ some new
    → f.mkdir ≡ true
    → f.write ≡ true
    → v.auth ≡ resolve_auth username hash disable true f
    → has_session o v r ≡ false
    → Blind o v r
resolve_auth-Blind o v r username hash disable f new d e m w a n =
    serve-Blind o v r
      (subst (λ x. is_guarded x ≡ true) (sym a)
        (IsGuarded-resolve username hash disable f new d e m w))
      n
