-- ===== src/Tests/Details.antt =====
-- The detail of a message at a small store.
use plv.Prelude.{◌+◌, true, ◌≡◌, refl, [], some, map}
use plv.Go.Time.{minute}
use plv.Go.Text.{join, fields, to_lower, equal_fold, text_eq, has_prefix, contains, lit}
use plv.Records.{is_noqueue_reject, Record}
use plv.Store.Add.{Work, add_record}
use plv.Store.Index.{Sub}
use plv.Detail.{
  squeeze, reject_embeds, details_pair, within_window, same_recipient, is_self, is_paired,
  is_open_reject, RecordDetail, shows_reject, get_detail,
}
use plv.Detail.Pairs.{shows_reject-sym}
use plv.Detail.Found.{get_detail-add_record}
use plv.Tests.Samples.{env, inbound_leg, empty_store, empty_store-IsIndexed}

-- Two rejections of one message, a minute apart: the gateway relays the reply of the server behind it.
abbrev first_reject : Record
first_reject = record inbound_leg {
  queue_id = lit "NQ1";
  status = lit "rejected";
  disposition = lit "rejected";
  filter_action = lit "noqueue-reject";
  to = lit "a@b.example";
  status_detail = lit "554 5.7.1 <a@b.example> no";
}

abbrev second_reject : Record
second_reject = record first_reject {
  queue_id = lit "NQ2";
  timestamp = first_reject.timestamp + minute;
  client = lit "gw[10.0.0.1]";
  status_detail = lit "host mx said: 554 5.7.1 <a@b.example> no";
}

first_shows_second : shows_reject first_reject second_reject ≡ true
unfolding shows_reject is_open_reject is_noqueue_reject is_paired is_self same_recipient
    within_window details_pair reject_embeds squeeze contains has_prefix text_eq lit equal_fold
    to_lower fields join
first_shows_second = refl

shows_reject-sym_example :
    shows_reject first_reject second_reject ≡ shows_reject second_reject first_reject
shows_reject-sym_example = shows_reject-sym first_reject second_reject refl refl

get_detail-add_record_example :
    (w : Work) × (d : RecordDetail) × (add_record env inbound_leg (empty_store, []) ≡ some w)
    × (get_detail env w.0 inbound_leg.origin inbound_leg.queue_id ≡ some (some d))
    × Sub inbound_leg.raw_lines (map (λ l. l.raw) d.lines)
get_detail-add_record_example =
    get_detail-add_record env inbound_leg empty_store [] empty_store-IsIndexed
