-- ===== src/Forward/Steps.antt =====
-- The Run loop of forward.go as a step relation: the loop, the callers of Enqueue and SetConf, the
-- tails, the clock and the network move in any order. The fields `enqueued`, `acked` and `inbox` and
-- the `seen` of a mode only record the history.
use plv.Prelude.{
  ℕ, ◌+◌, ◌≡◌, Bool, true, false, if◌then◌else◌, List, [], ◌∷◌, ◌++◌, Option, none, some,
}
use plv.Go.Time.{Time}
use plv.Records.{Record}
use plv.Go.Text.{Text}
use plv.Go.Net.{Network}
use plv.PostfixConf.{PostfixConf}
use plv.Forward.{
  Forwarder, ForwardState, Checkpoints, IngestBatch, second, new_forwarder, set_conf, enqueue,
  checkpoint, save_checkpoint, is_nil, is_idle, drain, requeue, next_backoff,
}

-- Where Run is: in its select; with offsets in hand; with a batch drained; waiting for the reply to a
-- request; in the pause after a failure; returned.
pub data Mode : Type 0 where
  selecting retrying stopped : Mode
  captured : Checkpoints → List Record → Mode
  drained : List Record → Checkpoints → List Record → Mode
  sending : IngestBatch → List Record → Mode

pub record World : Type 0 where
  pub forwarder : Forwarder
  pub mode : Mode
  pub backoff : ℕ
  pub last_send : Time
  pub now : Time
  pub mail_off : Option ℕ
  pub rspamd_off : Option ℕ
  -- forward-state.json, and the records that were enqueued when its offsets were read
  pub saved : Option ForwardState
  pub saved_seen : List Record
  -- all that was enqueued, all that was acknowledged, and what reached the receiver
  pub enqueued : List Record
  pub acked : List Record
  pub inbox : List IngestBatch

unfoldable pub start : Time → Option ForwardState → World
start now saved = record {
  forwarder = new_forwarder;
  mode = Mode.selecting;
  backoff = second;
  last_send = 0;
  now = now;
  mail_off = none;
  rspamd_off = none;
  saved = saved;
  saved_seen = [];
  enqueued = [];
  acked = [];
  inbox = [];
}

unfoldable pub more : List Record → World → World
more rs w = record w { forwarder = enqueue rs w.forwarder; enqueued = w.enqueued ++ rs }

unfoldable pub reconfigure : (Network → Text) → Option PostfixConf → World → World
reconfigure show pc w = record w { forwarder = set_conf show pc w.forwarder }

-- `woken` says that the wake channel was read; else the ticker fired.
unfoldable pub capture : Bool → World → World
capture woken w = record w {
  forwarder = if woken then record w.forwarder { wake = false } else w.forwarder;
  mode = Mode.captured (checkpoint w.mail_off w.rspamd_off) w.enqueued;
}

unfoldable pub take_batch : Checkpoints → List Record → World → World
take_batch cp seen w =
    let batch = w.forwarder.queue in
    record w {
      forwarder = drain w.forwarder;
      mode =
          if is_idle batch w.forwarder.conf w.now w.last_send
          then Mode.selecting
          else Mode.drained batch cp seen;
    }

-- The body of the request is built.
unfoldable pub request : List Record → Checkpoints → List Record → World → World
request batch cp seen w = record w {
  mode = Mode.sending (record { records = batch; checkpoints = cp; conf = w.forwarder.conf }) seen;
}

-- The receiver took the batch and answered 200. `written` says that the file could be written.
unfoldable pub succeed : IngestBatch → List Record → Bool → World → World
succeed b seen written w =
    let saves = if is_nil b.records then false else written in
    record w {
      mode = Mode.selecting;
      backoff = second;
      last_send = w.now;
      saved = if saves then some (save_checkpoint b.checkpoints) else w.saved;
      saved_seen = if saves then seen else w.saved_seen;
      acked = w.acked ++ b.records;
      inbox = w.inbox ++ b ∷ [];
    }

-- The request failed. `delivered` says that the receiver took the batch and the reply was lost.
unfoldable pub fail : IngestBatch → Bool → World → World
fail b delivered w = record w {
  forwarder = requeue b.records w.forwarder;
  mode = Mode.retrying;
  inbox = if delivered then w.inbox ++ b ∷ [] else w.inbox;
}

unfoldable pub resume : World → World
resume w = record w { mode = Mode.selecting; backoff = next_backoff w.backoff }

pub data Step (w : World) : World → Type 0 where
  enqueue_call : (rs : List Record) → Step w (more rs w)
  set_conf_call : (show : Network → Text) (pc : Option PostfixConf) → Step w (reconfigure show pc w)
  tail : (mail rspamd : Option ℕ) → Step w (record w { mail_off = mail; rspamd_off = rspamd })
  pass : (d : ℕ) → Step w (record w { now = w.now + d })
  woken : w.mode ≡ Mode.selecting → w.forwarder.wake ≡ true → Step w (capture true w)
  ticked : w.mode ≡ Mode.selecting → Step w (capture false w)
  drained_queue :
      (cp : Checkpoints) (seen : List Record)
      → w.mode ≡ Mode.captured cp seen
      → Step w (take_batch cp seen w)
  requested :
      (batch : List Record) (cp : Checkpoints) (seen : List Record)
      → w.mode ≡ Mode.drained batch cp seen
      → Step w (request batch cp seen w)
  succeeded :
      (b : IngestBatch) (seen : List Record) (written : Bool)
      → w.mode ≡ Mode.sending b seen
      → Step w (succeed b seen written w)
  failed :
      (b : IngestBatch) (seen : List Record) (delivered : Bool)
      → w.mode ≡ Mode.sending b seen
      → Step w (fail b delivered w)
  rested : w.mode ≡ Mode.retrying → Step w (resume w)
  cancelled : w.mode ≡ Mode.selecting → Step w (record w { mode = Mode.stopped })
  cancelled_retry : w.mode ≡ Mode.retrying → Step w (record w { mode = Mode.stopped })

-- One step after another.
pub data Steps (w : World) : World → Type 0 where
  done : Steps w w
  then_step : {v u : World} → Steps w v → Step v u → Steps w u
