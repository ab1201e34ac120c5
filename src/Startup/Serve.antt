-- ===== src/Startup/Serve.antt =====
-- The two halves of main.go's main: a forwarder, and a node that serves the web page with its optional
-- database and its optional listener for forwarders. Each ends where the program waits for a signal; none
-- is a fatal error. What runs beside it (the tails, the servers, the hourly purge) begins there.
use plv.Prelude.{◌∷◌, List, Bool, true, false, [], Option, none, some}
use plv.Go.Text.{Text}
use plv.Go.Time.{Env}
use plv.Go.Time.Parse.{◌>>=◌}
use plv.Go.Net.{Network}
use plv.PostfixConf.{PostfixConf}
use plv.Store.{Store, new_store, set_sink, set_postfix_conf}
use plv.Forward.{Forwarder, ForwardState, new_forwarder, set_conf, enqueue}
use plv.Database.{Postgres, open_db}
use plv.Database.Restart.{load_from_db}
use plv.Pki.{Files}
use plv.Pki.Tls.{TlsConfig, client_tls_config, server_tls_config}
use plv.Logs.{LogDir}
use plv.Startup.{apply_conf, Started, load_forward_state, bring_up_parsing}
use plv.Startup.Policy.{start_retention}

unfoldable pub set_conf_if : (Network → Text) → Option PostfixConf → Forwarder → Forwarder
set_conf_if show none f = f
set_conf_if show (some pc) f = set_conf show (some pc) f

unfoldable pub conf_of : Option PostfixConf → Store → Store
conf_of none s = s
conf_of (some pc) s = set_postfix_conf s (some pc)

unfoldable pub handed_on : Option PostfixConf → List PostfixConf → List PostfixConf
handed_on none rest = rest
handed_on (some pc) rest = pc ∷ rest

-- watchPostfixConf over what each of its rounds loads: the configurations that are handed on.
unfoldable pub watch_postfix_conf :
    (Network → Text) → List (Option PostfixConf) → Text → List PostfixConf
watch_postfix_conf show [] last = []
watch_postfix_conf show (round ∷ rounds) last =
    let (next, found) = apply_conf show round last in
    handed_on found (watch_postfix_conf show rounds next)

-- The argument is what rand.Read gives, and RawURLEncoding.
unfoldable pub random_password : (Text → Text) → Option Text → Option Text
random_password encode none = none
random_password encode (some b) = some (encode b)

module _ {D : Type 0} where
  unfoldable pub migrated : D × Bool → Option D
  migrated (d, true) = some d
  migrated (d, false) = none

  unfoldable pub filled : D × Option Store → Option (Option D × Store)
  filled (d, none) = none
  filled (d, some s) = some (some d, s)

-- DATABASE_URL: none where it is empty, and what sql.Open gives otherwise.
unfoldable pub open_store :
    {D : Type 0} → Postgres D → Option (Option D) → Option (Option D × Store)
open_store pg none = some (none, new_store false)
open_store pg (some opened) = do
  d ← open_db pg opened
  d1 ← migrated (pg.migrate d)
  filled (load_from_db pg (new_store true) d1)

module _ {D P : Type 0} (pg : Postgres D) (key_pair : Text → Text → Option P)
    (accepts : Text → Bool) (env : Env) (decode : Text → Option Text) (dir : LogDir)
    (join : Text → Text → Text) where
  -- The TLS of NewIngestServer, for a receiver alone.
  unfoldable pub ingest_tls : Bool → Files → Option (Option (TlsConfig P))
  ingest_tls false files = some none
  ingest_tls true files = do cfg ← server_tls_config key_pair accepts files; some (some cfg)

  -- The configuration is the first one that watchPostfixConf loads, if PLV_POSTFIX_CONF is set; `later` is
  -- the clock at the first purge, and `days` is RETENTION_DAYS. What is upserted on the
  -- way is the list beside the store.
  unfoldable pub serve_node :
      Bool
      → Option (Option D)
      → Files
      → Option PostfixConf
      → Env
      → Text
      → Option (Option D × Started)
  serve_node receiver url files conf later days = do
    opened ← open_store pg url
    tls ← ingest_tls receiver files
    x ← bring_up_parsing env decode dir join none (opened.1, [])
    s ← start_retention later days (conf_of conf x.work.0)
    some (opened.0, record x { work = (s, x.work.1) })

  -- `saved` is what json makes of the file of the checkpoint. What the parsing hands to the sink is in the
  -- queue.
  unfoldable pub forward_node :
      (Network → Text)
      → Files
      → Option ForwardState
      → Option PostfixConf
      → Option (Forwarder × Started)
  forward_node show files saved conf = do
    tls ← client_tls_config key_pair accepts files
    x ←
        bring_up_parsing env decode dir join (some (load_forward_state saved))
          (set_sink (new_store false), [])
    some (set_conf_if show conf (enqueue x.work.1 new_forwarder), x)
