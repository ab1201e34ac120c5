-- ===== src/Forward/Progress.antt =====
-- Run of forward.go: the pauses after failures, and the way back to an empty queue.
use plv.Prelude.{
  ℕ, zero, suc, ◌*◌, ◌^◌, ◌≤◌, ◌≡◌, ◌≢◌, refl, ◌∙◌, sym, ap, Bool, true, false, if◌then◌else◌, List,
  [], ◌++◌, Option, append-nil, arith, Bool-cases, inl, inr,
}
use plv.Go.Time.{Time}
use plv.Records.{Record}
use plv.Forward.{
  checkpoint, ForwardState, Checkpoints, IngestBatch, second, is_idle, drain, next_backoff,
}
use plv.Forward.Steps.{
  Mode, World, start, more, reconfigure, capture, take_batch, request, succeed, fail, resume, Step,
  Steps,
}
use plv.Forward.Delivery.{IsConserved, Steps-IsConserved, start-IsConserved, in_flight}

-- The pause is a second doubled up to five times.
abbrev pub IsPause : ℕ → Type 0
IsPause b = (k : ℕ) × (k ≤ 5) × (b ≡ second * 2 ^ k)

next_backoff-IsPause : (b : ℕ) → IsPause b → IsPause (next_backoff b)
unfolding next_backoff
next_backoff-IsPause b (zero, h, e) = rw e (1, omega arith, refl)
next_backoff-IsPause b (suc zero, h, e) = rw e (2, omega arith, refl)
next_backoff-IsPause b (suc (suc zero), h, e) = rw e (3, omega arith, refl)
next_backoff-IsPause b (suc (suc (suc zero)), h, e) = rw e (4, omega arith, refl)
next_backoff-IsPause b (suc (suc (suc (suc zero))), h, e) = rw e (5, omega arith, refl)
next_backoff-IsPause b (suc (suc (suc (suc (suc zero)))), h, e) = rw e (5, omega arith, refl)
next_backoff-IsPause b (suc (suc (suc (suc (suc (suc k))))), h, e) = ground arith

Step-IsPause : {w v : World} → Step w v → IsPause w.backoff → IsPause v.backoff
unfolding more reconfigure capture take_batch request succeed fail resume
Step-IsPause (Step.enqueue_call rs) x = x
Step-IsPause (Step.set_conf_call show pc) x = x
Step-IsPause (Step.tail mail rspamd) x = x
Step-IsPause (Step.pass d) x = x
Step-IsPause (Step.woken h a) x = x
Step-IsPause (Step.ticked h) x = x
Step-IsPause (Step.drained_queue cp seen h) x = x
Step-IsPause (Step.requested batch cp seen h) x = x
Step-IsPause (Step.succeeded b seen written h) x = (0, omega arith, refl)
Step-IsPause (Step.failed b seen delivered h) x = x
Step-IsPause {w} (Step.rested h) x = next_backoff-IsPause w.backoff x
Step-IsPause (Step.cancelled h) x = x
Step-IsPause (Step.cancelled_retry h) x = x

-- At every point of a run the pause after the next failure is 1, 2, 4, 8, 16 or 32 seconds.
pub run-backoff :
    (now : Time) (saved : Option ForwardState) (w : World)
    → Steps (start now saved) w
    → (k : ℕ) × (k ≤ 5) × (w.backoff ≡ second * 2 ^ k)
unfolding start
run-backoff now saved w Steps.done = (0, omega arith, refl)
run-backoff now saved w (Steps.then_step {v} r s) = Step-IsPause s (run-backoff now saved v r)

Steps-cons : {w v u : World} → Step w v → Steps v u → Steps w u
Steps-cons s Steps.done = Steps.then_step Steps.done s
Steps-cons s (Steps.then_step r t) = Steps.then_step (Steps-cons s r) t

-- Steps that lead to the select with an empty queue, and nothing enqueued on the way.
abbrev Drains : World → Type 0
Drains w =
    (v : World) × Steps w v
    × (v.mode ≡ Mode.selecting)
    × (v.forwarder.queue ≡ [])
    × (v.enqueued ≡ w.enqueued)

after : {w u : World} → Step w u → u.enqueued ≡ w.enqueued → Drains u → Drains w
after s e (v, r, m, q, f) = (v, Steps-cons s r, m, q, f ∙ e)

-- A request with an empty queue behind it.
last_request-Drains :
    (b : IngestBatch) (seen : List Record) (w : World)
    → w.mode ≡ Mode.sending b seen
    → w.forwarder.queue ≡ []
    → Drains w
unfolding succeed
last_request-Drains b seen w h q = (
  succeed b seen true w,
  Steps.then_step Steps.done (Step.succeeded b seen true h),
  refl,
  q,
  refl,
)

last_batch-Drains :
    (batch : List Record) (cp : Checkpoints) (seen : List Record) (w : World)
    → w.mode ≡ Mode.drained batch cp seen
    → w.forwarder.queue ≡ []
    → Drains w
unfolding request
last_batch-Drains batch cp seen w h q =
    after (Step.requested batch cp seen h) refl
      (last_request-Drains _ seen (request batch cp seen w) refl q)

take_batch-Drains :
    (cp : Checkpoints) (seen : List Record) (w : World) → Drains (take_batch cp seen w)
unfolding take_batch drain
take_batch-Drains cp seen w =
    let f = w.forwarder in
    let mode : Bool → Mode =
      λ idle. if idle then Mode.selecting else Mode.drained f.queue cp seen in
    elim (Bool-cases (is_idle f.queue f.conf w.now w.last_send)) [
      | inl idle ↦ (take_batch cp seen w, Steps.done, ap mode idle, refl, refl)
      | inr busy ↦ last_batch-Drains f.queue cp seen (take_batch cp seen w) (ap mode busy) refl
    ]

captured-Drains :
    (cp : Checkpoints) (seen : List Record) (w : World) → w.mode ≡ Mode.captured cp seen → Drains w
captured-Drains cp seen w h =
    after (Step.drained_queue cp seen h) (unfold take_batch in refl) (take_batch-Drains cp seen w)

selecting-Drains : (w : World) → w.mode ≡ Mode.selecting → Drains w
unfolding capture
selecting-Drains w h =
    after (Step.ticked h) refl
      (captured-Drains (checkpoint w.mail_off w.rspamd_off) w.enqueued (capture false w) refl)

sending-Drains :
    (b : IngestBatch) (seen : List Record) (w : World) → w.mode ≡ Mode.sending b seen → Drains w
unfolding succeed
sending-Drains b seen w h =
    after (Step.succeeded b seen true h) refl (selecting-Drains (succeed b seen true w) refl)

-- From every mode but the last.
mode-Drains : (m : Mode) (w : World) → w.mode ≡ m → m ≢ Mode.stopped → Drains w
unfolding request resume
mode-Drains Mode.selecting w h n = selecting-Drains w h
mode-Drains Mode.retrying w h n = after (Step.rested h) refl (selecting-Drains (resume w) refl)
mode-Drains Mode.stopped w h n = ground arith
mode-Drains (Mode.captured cp seen) w h n = captured-Drains cp seen w h
mode-Drains (Mode.drained batch cp seen) w h n =
    after (Step.requested batch cp seen h) refl
      (sending-Drains _ seen (request batch cp seen w) refl)
mode-Drains (Mode.sending b seen) w h n = sending-Drains b seen w h

at_rest :
    (v : World)
    → v.mode ≡ Mode.selecting
    → v.forwarder.queue ≡ []
    → IsConserved v
    → v.acked ≡ v.enqueued
at_rest v m q x =
    sym (append-nil v.acked)
    ∙ ap (λ rs. v.acked ++ rs) (sym (ap in_flight m))
    ∙ ap (λ rs. v.acked ++ rs) (sym (append-nil (in_flight v.mode)))
    ∙ ap (λ rs. v.acked ++ (in_flight v.mode ++ rs)) (sym q)
    ∙ x.0

-- From every point of a run that has not been cancelled the loop can go on, with no further record
-- enqueued, to a state where the queue is empty and all that was enqueued is acknowledged, in order.
pub run-drains :
    (now : Time) (saved : Option ForwardState) (w : World)
    → Steps (start now saved) w
    → w.mode ≢ Mode.stopped
    → (v : World) × Steps w v × (v.forwarder.queue ≡ []) × (v.acked ≡ w.enqueued)
run-drains now saved w r n =
    let (v, t, m, q, e) = mode-Drains w.mode w refl n in
    let kept = Steps-IsConserved t (Steps-IsConserved r (start-IsConserved now saved)) in
    (v, t, q, at_rest v m q kept ∙ e)
