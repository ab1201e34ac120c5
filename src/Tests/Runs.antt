-- ===== src/Tests/Runs.antt =====
-- A run of the forwarder whose only request reaches the receiver while the reply is lost.
use plv.Prelude.{ℕ, ◌*◌, ◌^◌, ◌≤◌, ◌≡◌, ◌≢◌, refl, true, none, List, [], ◌∷◌, ◌++◌, arith}
use plv.Records.{Record}
use plv.Forward.{
  Checkpoints, IngestBatch, second, new_forwarder, enqueue, checkpoint, is_nil, is_idle, drain,
}
use plv.Forward.Steps.{Mode, World, start, more, capture, take_batch, request, fail, Step, Steps}
use plv.Forward.Delivery.{Prefix, Sublist, in_flight, received, run-delivers}
use plv.Forward.Progress.{run-backoff, run-drains}
use plv.Tests.Samples.{env, inbound_leg}

abbrev pub arrivals : List Record
arrivals = inbound_leg ∷ []

abbrev pub nowhere : Checkpoints
nowhere = record { mail_log = none; rspamd_log = none }

abbrev pub first_batch : IngestBatch
first_batch = record { records = arrivals; checkpoints = nowhere; conf = none }

abbrev pub w0 : World
w0 = start env.now none

abbrev pub w1 : World
w1 = more arrivals w0

abbrev pub w2 : World
w2 = capture true w1

abbrev pub w3 : World
w3 = take_batch nowhere arrivals w2

abbrev pub w4 : World
w4 = request arrivals nowhere arrivals w3

abbrev w5 : World
w5 = fail first_batch true w4

run : Steps w0 w5
unfolding start new_forwarder more enqueue capture checkpoint take_batch is_idle is_nil drain
    request
run =
    Steps.then_step
      (Steps.then_step
        (Steps.then_step
          (Steps.then_step (Steps.then_step Steps.done (Step.enqueue_call arrivals))
            (Step.woken refl refl))
          (Step.drained_queue nowhere arrivals refl))
        (Step.requested arrivals nowhere arrivals refl))
      (Step.failed first_batch arrivals true refl)

w5_runs : w5.mode ≢ Mode.stopped
unfolding fail
w5_runs h = ground arith

run-delivers_example :
    (w5.acked ++ (in_flight w5.mode ++ w5.forwarder.queue) ≡ w5.enqueued)
    × Sublist w5.acked (received w5.inbox)
    × Prefix w5.saved_seen w5.acked
run-delivers_example = run-delivers env.now none w5 run

run-backoff_example : (k : ℕ) × (k ≤ 5) × (w5.backoff ≡ second * 2 ^ k)
run-backoff_example = run-backoff env.now none w5 run

run-drains_example : (v : World) × Steps w5 v × (v.forwarder.queue ≡ []) × (v.acked ≡ w5.enqueued)
run-drains_example = run-drains env.now none w5 run w5_runs
