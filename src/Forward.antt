-- ===== src/Forward.antt =====
-- forward.go: the forwarder's state, its operations and the parts of its Run loop. The live offsets
-- of the two tails are a pair of options: a source that is not set is none.
pub mod Request
pub mod Steps
pub mod Delivery
pub mod Progress
use plv.Prelude.{
  ℕ, ◌*◌, ◌-◌, Bool, true, not, ◌&&◌, ◌||◌, ltb, if◌then◌else◌, List, [], ◌∷◌, false, ◌++◌, Option,
  none, some,
}
use plv.Go.Text.{Text}
use plv.Go.Time.{Time}
use plv.Records.{Record}
use plv.Go.Net.{Network}
use plv.PostfixConf.{PostfixConf, ConfPayload, payload}

abbrev pub second : ℕ
second = 1_000_000_000

-- The content of forward-state.json.
pub record ForwardState : Type 0 where
  pub mail : ℕ
  pub rspamd : ℕ

pub record Forwarder : Type 0 where
  pub queue : List Record
  -- the channel of one place
  pub wake : Bool
  pub conf : Option ConfPayload

-- What NewForwarder builds, apart from the HTTP client.
unfoldable pub new_forwarder : Forwarder
new_forwarder = record { queue = []; wake = false; conf = none }

unfoldable pub set_conf : (Network → Text) → Option PostfixConf → Forwarder → Forwarder
set_conf show pc f = record f { conf = payload show pc }

unfoldable pub enqueue : List Record → Forwarder → Forwarder
enqueue [] f = f
enqueue (r ∷ rs) f = record f { queue = f.queue ++ r ∷ rs; wake = true }

-- A map from file names to offsets, whose keys are the sources that are set.
pub record Checkpoints : Type 0 where
  pub mail_log : Option ℕ
  pub rspamd_log : Option ℕ

unfoldable pub checkpoint : Option ℕ → Option ℕ → Checkpoints
checkpoint mail_off rspamd_off = record { mail_log = mail_off; rspamd_log = rspamd_off }

abbrev or_zero : Option ℕ → ℕ
or_zero none = 0
or_zero (some n) = n

-- A missing key reads as 0.
unfoldable pub save_checkpoint : Checkpoints → ForwardState
save_checkpoint cp = record { mail = or_zero cp.mail_log; rspamd = or_zero cp.rspamd_log }

-- The body of a request, without the version.
pub record IngestBatch : Type 0 where
  pub records : List Record
  pub checkpoints : Checkpoints
  pub conf : Option ConfPayload

unfoldable pub is_nil : List Record → Bool
is_nil [] = true
is_nil (r ∷ rs) = false

abbrev has_conf : Option ConfPayload → Bool
has_conf none = false
has_conf (some c) = true

abbrev pub heartbeat : ℕ
heartbeat = 20 * second

-- Nothing to ship, and the heartbeat of the configuration is not due.
unfoldable pub is_idle : List Record → Option ConfPayload → Time → Time → Bool
is_idle batch conf now last_send =
    is_nil batch && (not (has_conf conf) || ltb (now - last_send) heartbeat)

unfoldable pub drain : Forwarder → Forwarder
drain f = record f { queue = [] }

unfoldable pub requeue : List Record → Forwarder → Forwarder
requeue batch f = if is_nil batch then f else record f { queue = batch ++ f.queue }

unfoldable pub next_backoff : ℕ → ℕ
next_backoff backoff = if ltb backoff (30 * second) then backoff * 2 else backoff
