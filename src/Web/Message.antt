-- ===== src/Web/Message.antt =====
-- The requests and responses of handlers.go, as far as its handlers read and write them.
use plv.Prelude.{ℕ, ℤ, Bool, ◌||◌, List, [], Option, none}
use plv.Go.Text.{Text, lit, has_prefix, equal_fold}
use plv.Go.Map.{Map, lookup_or}
use plv.Search.{SearchResult}
use plv.Detail.{RecordDetail}
use plv.Stats.{StatsResult}
use plv.Store.Confs.{ServerConfInfo}

-- The path is the one that ServeMux has cleaned; of several values for a key, Get takes the first.
pub record Request : Type 0 where
  pub method : Text
  pub path : Text
  -- the cookie named session
  pub session : Option Text
  pub over_tls : Bool
  pub forwarded_proto : Text
  pub query : Map Text
  pub form : Map Text

unfoldable pub query_get : Request → Text → Text
query_get r key = lookup_or key [] r.query

unfoldable pub form_value : Request → Text → Text
form_value r key = lookup_or key [] r.form

-- The cookie named session, for the path /, HttpOnly and SameSite=Lax.
pub record Cookie : Type 0 where
  pub value : Text
  pub secure : Bool
  pub max_age : ℤ

pub data Body : Type 0 where
  empty : Body
  message : Text → Body
  page : Text → Body
  table : SearchResult → Body
  detail : RecordDetail → Body
  cards : StatsResult → Body
  names : List Text → Body
  confs : List ServerConfInfo → Body
  status : Bool → Text → ℕ → Bool → Body
  build : Text → Text → Text → Text → Text → Body

pub record Response : Type 0 where
  pub code : ℕ
  pub location : Text
  pub cookie : Option Cookie
  pub body : Body

unfoldable pub ok : Body → Response
ok b = record { code = 200; location = []; cookie = none; body = b }

unfoldable pub error : ℕ → Text → Response
error code t = record { code = code; location = []; cookie = none; body = Body.message t }

-- http.Redirect with StatusFound.
unfoldable pub redirect : Text → Response
redirect to = record { code = 302; location = to; cookie = none; body = Body.empty }

unfoldable pub method_not_allowed : Response
method_not_allowed = error 405 (lit "method not allowed")

unfoldable pub not_found : Response
not_found = error 404 (lit "404 page not found")

unfoldable pub is_api_request : Request → Bool
is_api_request r = has_prefix r.path (lit "/api/")

unfoldable pub secure_request : Request → Bool
secure_request r = r.over_tls || equal_fold r.forwarded_proto (lit "https")
