-- ===== src/Tests/Journeys.antt =====
-- A forwarder whose only batch is acknowledged, and the receiver that took it.
use plv.Prelude.{◌≡◌, refl, true, false, none, some, Option}
use plv.Go.Text.{lit, is_empty}
use plv.Forward.{new_forwarder, enqueue, checkpoint, is_nil, is_idle, drain}
use plv.Forward.Steps.{World, start, more, capture, take_batch, request, succeed, Step, Steps}
use plv.Store.Ingest.{stamp}
use plv.Store.Rows.{IsListed}
use plv.Receiver.{IngestBatch}
use plv.Receiver.Journey.{Has, IsFaithful, receive, run_arrives}
use plv.Tests.Samples.{env, inbound_leg}
use plv.Tests.Runs.{arrivals, nowhere, first_batch, w0, w4}
use plv.Tests.Receivers.{setting, receiver}

abbrev acknowledged : World
acknowledged = succeed first_batch arrivals true w4

run : Steps w0 acknowledged
unfolding start new_forwarder more enqueue capture checkpoint take_batch is_idle is_nil drain
    request
run =
    Steps.then_step
      (Steps.then_step
        (Steps.then_step
          (Steps.then_step (Steps.then_step Steps.done (Step.enqueue_call arrivals))
            (Step.woken refl refl))
          (Step.drained_queue nowhere arrivals refl))
        (Step.requested arrivals nowhere arrivals refl))
      (Step.succeeded first_batch arrivals true refl)

abbrev read : IngestBatch → Option IngestBatch
read b = some b

faithful : IsFaithful read setting.version acknowledged.inbox
unfolding succeed start more capture take_batch request
faithful = (refl, tt)

acknowledged_leg : Has inbound_leg acknowledged.acked
unfolding succeed start more capture take_batch request
acknowledged_leg = Has.here

named : is_empty (lit "gw1") ≡ false
unfolding lit
named = refl

run_arrives_example :
    IsListed
      (stamp (lit "gw1") inbound_leg)
      (receive read setting (lit "gw1") acknowledged.inbox receiver).store
run_arrives_example =
    run_arrives read setting (lit "gw1") named env.now none acknowledged receiver inbound_leg run
      faithful acknowledged_leg refl
