-- ===== src/Forward/Delivery.antt =====
-- Run of forward.go: what becomes of the records, over every sequence of steps.
use mathlib.Core.Path.{subst}
use plv.Prelude.{
  ◌≡◌, refl, ◌∙◌, sym, ap, Bool, true, false, if◌then◌else◌, List, [], ◌∷◌, ◌++◌, Option,
  append_assoc, append-nil, arith, Bool-cases, inl, inr,
}
use plv.Go.Time.{Time}
use plv.Records.{Record}
use plv.PostfixConf.{ConfPayload}
use plv.Forward.{
  Forwarder, ForwardState, Checkpoints, IngestBatch, new_forwarder, enqueue, set_conf, is_nil,
  is_idle, drain, requeue,
}
use plv.Forward.Steps.{
  Mode, World, start, more, reconfigure, capture, take_batch, request, succeed, fail, resume, Step,
  Steps,
}

abbrev pub Prefix : List Record → List Record → Type 0
Prefix xs ys = (zs : List Record) × (ys ≡ xs ++ zs)

-- The first list is the second with some elements left out.
pub data Sublist : List Record → List Record → Type 0 where
  none_left : Sublist [] []
  kept : (r : Record) {xs ys : List Record} → Sublist xs ys → Sublist (r ∷ xs) (r ∷ ys)
  left_out : (r : Record) {xs ys : List Record} → Sublist xs ys → Sublist xs (r ∷ ys)

-- The records of all the batches that reached the receiver.
unfoldable pub received : List IngestBatch → List Record
received [] = []
received (b ∷ bs) = b.records ++ received bs

abbrev pub in_flight : Mode → List Record
in_flight Mode.selecting = []
in_flight Mode.retrying = []
in_flight Mode.stopped = []
in_flight (Mode.captured cp seen) = []
in_flight (Mode.drained batch cp seen) = batch
in_flight (Mode.sending b seen) = b.records

-- What was enqueued when the offsets in hand were read is acknowledged or about to be sent.
abbrev pub IsAhead : Mode → List Record → List Record → Type 0
IsAhead Mode.selecting acked queue = Unit
IsAhead Mode.retrying acked queue = Unit
IsAhead Mode.stopped acked queue = Unit
IsAhead (Mode.captured cp seen) acked queue = Prefix seen (acked ++ queue)
IsAhead (Mode.drained batch cp seen) acked queue = Prefix seen (acked ++ batch)
IsAhead (Mode.sending b seen) acked queue = Prefix seen (acked ++ b.records)

abbrev pub IsConservedAt : Mode → World → Type 0
IsConservedAt m w =
    (w.acked ++ (in_flight m ++ w.forwarder.queue) ≡ w.enqueued)
    × Sublist w.acked (received w.inbox)
    × Prefix w.saved_seen w.acked
    × IsAhead m w.acked w.forwarder.queue

abbrev pub IsConserved : World → Type 0
IsConserved w = IsConservedAt w.mode w

Sublist-append_left :
    {xs ys : List Record} (zs : List Record) → Sublist xs ys → Sublist xs (ys ++ zs)
Sublist-append_left [] Sublist.none_left = Sublist.none_left
Sublist-append_left (z ∷ zs) Sublist.none_left =
    Sublist.left_out z (Sublist-append_left zs Sublist.none_left)
Sublist-append_left zs (Sublist.kept r s) = Sublist.kept r (Sublist-append_left zs s)
Sublist-append_left zs (Sublist.left_out r s) = Sublist.left_out r (Sublist-append_left zs s)

Sublist-refl : (xs : List Record) → Sublist xs xs
Sublist-refl [] = Sublist.none_left
Sublist-refl (x ∷ xs) = Sublist.kept x (Sublist-refl xs)

Sublist-append :
    {xs ys : List Record} (zs : List Record) → Sublist xs ys → Sublist (xs ++ zs) (ys ++ zs)
Sublist-append zs Sublist.none_left = Sublist-refl zs
Sublist-append zs (Sublist.kept r s) = Sublist.kept r (Sublist-append zs s)
Sublist-append zs (Sublist.left_out r s) = Sublist.left_out r (Sublist-append zs s)

received-append :
    (bs : List IngestBatch) (b : IngestBatch) → received (bs ++ b ∷ []) ≡ received bs ++ b.records
unfolding received
received-append [] b = append-nil b.records
received-append (x ∷ xs) b =
    ap (λ rs. x.records ++ rs) (received-append xs b)
    ∙ sym (append_assoc x.records (received xs) b.records)

Prefix-append : (xs ys zs : List Record) → Prefix xs ys → Prefix xs (ys ++ zs)
Prefix-append xs ys zs (ws, e) = (ws ++ zs, rw e (append_assoc xs ws zs))

queue-enqueue : (rs : List Record) (f : Forwarder) → (enqueue rs f).queue ≡ f.queue ++ rs
unfolding enqueue
queue-enqueue [] f = sym (append-nil f.queue)
queue-enqueue (r ∷ rs) f = refl

queue-requeue : (rs : List Record) (f : Forwarder) → (requeue rs f).queue ≡ rs ++ f.queue
unfolding requeue is_nil
queue-requeue [] f = refl
queue-requeue (r ∷ rs) f = refl

is_nil-nil : (rs : List Record) → is_nil rs ≡ true → rs ≡ []
unfolding is_nil
is_nil-nil [] h = refl
is_nil-nil (r ∷ rs) h = ground arith

IsAhead-more :
    (m : Mode) (acked queue rs : List Record)
    → IsAhead m acked queue
    → IsAhead m acked (queue ++ rs)
IsAhead-more Mode.selecting acked queue rs h = h
IsAhead-more Mode.retrying acked queue rs h = h
IsAhead-more Mode.stopped acked queue rs h = h
IsAhead-more (Mode.captured cp seen) acked queue rs h =
    subst (Prefix seen) (append_assoc acked queue rs) (Prefix-append seen (acked ++ queue) rs h)
IsAhead-more (Mode.drained batch cp seen) acked queue rs h = h
IsAhead-more (Mode.sending b seen) acked queue rs h = h

more-IsConserved : (rs : List Record) (w : World) → IsConserved w → IsConserved (more rs w)
unfolding more
more-IsConserved rs w (all, sub, pre, ahead) =
    let q = queue-enqueue rs w.forwarder in
    (
      rw (q, ← all, append_assoc, append_assoc) refl,
      sub,
      pre,
      rw q (IsAhead-more w.mode w.acked w.forwarder.queue rs ahead),
    )

capture-IsConserved :
    (woken : Bool) (w : World) → IsConservedAt Mode.selecting w → IsConserved (capture woken w)
unfolding capture
capture-IsConserved true w (all, sub, pre, ahead) =
    (all, sub, pre, ([], rw all (sym (append-nil w.enqueued))))
capture-IsConserved false w (all, sub, pre, ahead) =
    (all, sub, pre, ([], rw all (sym (append-nil w.enqueued))))

is_idle-nil :
    (batch : List Record) (conf : Option ConfPayload) (now last_send : Time)
    → is_idle batch conf now last_send ≡ true
    → batch ≡ []
unfolding is_idle
is_idle-nil batch conf now last_send h = is_nil-nil batch (ground arith)

take_batch-IsConserved :
    (cp : Checkpoints) (seen : List Record) (w : World)
    → IsConservedAt (Mode.captured cp seen) w
    → IsConserved (take_batch cp seen w)
unfolding take_batch drain
take_batch-IsConserved cp seen w (all, sub, pre, ahead) =
    let f = w.forwarder in
    elim (Bool-cases (is_idle f.queue f.conf w.now w.last_send)) [
      | inl idle ↦ rw idle (
        ap (λ q. w.acked ++ q) (sym (is_idle-nil f.queue f.conf w.now w.last_send idle)) ∙ all,
        sub,
        pre,
        tt,
      )
      | inr busy ↦ rw busy (rw (append-nil f.queue) all, sub, pre, ahead)
    ]

succeed-IsConserved :
    (b : IngestBatch) (seen : List Record) (written : Bool) (w : World)
    → IsConservedAt (Mode.sending b seen) w
    → IsConserved (succeed b seen written w)
unfolding succeed
succeed-IsConserved b seen written w (all, sub, pre, ahead) = (
  append_assoc w.acked b.records w.forwarder.queue ∙ all,
  rw (received-append w.inbox b) (Sublist-append b.records sub),
  elim (Bool-cases (if is_nil b.records then false else written)) [
    | inl e ↦ rw e ahead
    | inr e ↦ rw e (Prefix-append w.saved_seen w.acked b.records pre)
  ],
  tt,
)

fail-IsConserved :
    (b : IngestBatch) (seen : List Record) (delivered : Bool) (w : World)
    → IsConservedAt (Mode.sending b seen) w
    → IsConserved (fail b delivered w)
unfolding fail
fail-IsConserved b seen delivered w (all, sub, pre, ahead) = (
  rw (queue-requeue b.records w.forwarder) all,
  elim (Bool-cases delivered) [
    | inl e ↦ rw (e, received-append w.inbox b) (Sublist-append_left b.records sub)
    | inr e ↦ rw e sub
  ],
  pre,
  tt,
)

at_mode : (m : Mode) (w : World) → w.mode ≡ m → IsConserved w → IsConservedAt m w
at_mode m w h x = subst (λ n. IsConservedAt n w) h x

Step-IsConserved : {w v : World} → Step w v → IsConserved w → IsConserved v
unfolding reconfigure set_conf request resume
Step-IsConserved {w} (Step.enqueue_call rs) x = more-IsConserved rs w x
Step-IsConserved {w} (Step.set_conf_call show pc) x = x
Step-IsConserved {w} (Step.tail mail rspamd) x = x
Step-IsConserved {w} (Step.pass d) x = x
Step-IsConserved {w} (Step.woken h a) x = capture-IsConserved true w (at_mode Mode.selecting w h x)
Step-IsConserved {w} (Step.ticked h) x = capture-IsConserved false w (at_mode Mode.selecting w h x)
Step-IsConserved {w} (Step.drained_queue cp seen h) x =
    take_batch-IsConserved cp seen w (at_mode (Mode.captured cp seen) w h x)
Step-IsConserved {w} (Step.requested batch cp seen h) x = at_mode (Mode.drained batch cp seen) w h x
Step-IsConserved {w} (Step.succeeded b seen written h) x =
    succeed-IsConserved b seen written w (at_mode (Mode.sending b seen) w h x)
Step-IsConserved {w} (Step.failed b seen delivered h) x =
    fail-IsConserved b seen delivered w (at_mode (Mode.sending b seen) w h x)
Step-IsConserved {w} (Step.rested h) x = at_mode Mode.retrying w h x
Step-IsConserved {w} (Step.cancelled h) x = at_mode Mode.selecting w h x
Step-IsConserved {w} (Step.cancelled_retry h) x = at_mode Mode.retrying w h x

pub Steps-IsConserved : {w v : World} → Steps w v → IsConserved w → IsConserved v
Steps-IsConserved Steps.done x = x
Steps-IsConserved (Steps.then_step r s) x = Step-IsConserved s (Steps-IsConserved r x)

pub start-IsConserved : (now : Time) (saved : Option ForwardState) → IsConserved (start now saved)
unfolding start new_forwarder received
start-IsConserved now saved = (refl, Sublist.none_left, ([], refl), tt)

-- However the loop, the callers, the clock and the network interleave, the records that were
-- acknowledged, the batch in flight and the queue together are the records that were enqueued, each
-- once and in their order; the acknowledged ones are all at the receiver, in that order, possibly
-- among repetitions; and when a checkpoint is saved, every record that was enqueued by the time its
-- offsets were read is acknowledged.
pub run-delivers :
    (now : Time) (saved : Option ForwardState) (w : World)
    → Steps (start now saved) w
    → (w.acked ++ (in_flight w.mode ++ w.forwarder.queue) ≡ w.enqueued)
      × Sublist w.acked (received w.inbox)
      × Prefix w.saved_seen w.acked
run-delivers now saved w r =
    let (all, sub, pre, ahead) = Steps-IsConserved r (start-IsConserved now saved) in
    (all, sub, pre)
