-- ===== src/Tests/Stores.antt =====
-- The store's operations at concrete inputs.
use plv.Prelude.{pos, ℕ, ◌+◌, ◌*◌, ◌≡◌, refl, not, keep, length, get_elem?, some, none, [], ◌∷◌}
use plv.Go.Map.{lookup}
use plv.Go.Sort.{IsSorted}
use plv.Store.{key_of, delivery_key, rec_key}
use plv.Store.Merge.{merge_delivery_leg}
use plv.Store.Add.{Work, add_record, add_records}
use plv.Go.Time.{ago}
use plv.Store.Purge.{is_expired, kept_records, purge_older_than}
use plv.Store.Retention.{IsOwn, IsFull, Leaves, purge_older_than-IsExact, purge_stale_delivery}
use plv.Store.Index.{Extends}
use plv.Rspamd.{RspamdVerdict}
use plv.Store.Verdicts.{apply_rspamd_verdict}
use plv.Store.Meeting.{IsNew, verdict_meets_record}
use plv.Store.Total.{AllFiled, add_records-total}
use plv.Parser.Verdict.{before, sort_raw_by_time}
use plv.Parser.Timeline.{IsDistinct, sort_raw_by_time-IsTimeline}
use plv.Go.Text.{Text, elem, lit, text_eq}
use plv.Tests.Samples.{
  empty_store-IsIndexed, env, line1, line2, inbound_leg, outbound_leg, other_message, aged_store,
  empty_store,
}

add_records-total_example :
    (w : Work) × (add_records env (inbound_leg ∷ outbound_leg ∷ []) empty_store ≡ some w)
    × Extends empty_store w.0
    × AllFiled w.0 (inbound_leg ∷ outbound_leg ∷ [])
add_records-total_example =
    add_records-total env (inbound_leg ∷ outbound_leg ∷ []) empty_store empty_store-IsIndexed

sort_raw_by_time-IsTimeline_example :
    IsSorted (before env) (sort_raw_by_time env (line2 ∷ line1 ∷ line2 ∷ []))
    × IsDistinct (sort_raw_by_time env (line2 ∷ line1 ∷ line2 ∷ []))
    × ((l : Text)
        → elem l (sort_raw_by_time env (line2 ∷ line1 ∷ line2 ∷ []))
          ≡ elem l (line2 ∷ line1 ∷ line2 ∷ []))
sort_raw_by_time-IsTimeline_example = sort_raw_by_time-IsTimeline env (line2 ∷ line1 ∷ line2 ∷ [])

-- Seven days.
abbrev week : ℕ
week = 7 * 86400 * 1_000_000_000

purge_older_than-IsExact_example :
    ((purge_older_than env (pos week) aged_store).0.records
      ≡ keep (λ r. not (is_expired (ago env.now (pos week)) r)) aged_store.records)
    × ((purge_older_than env (pos week) aged_store).1
          + length (purge_older_than env (pos week) aged_store).0.records
        ≡ length aged_store.records)
    × IsOwn
        (purge_older_than env (pos week) aged_store).0.by_queue_id
        (purge_older_than env (pos week) aged_store).0.records
    × IsFull
        (purge_older_than env (pos week) aged_store).0.by_queue_id
        (purge_older_than env (pos week) aged_store).0.records
purge_older_than-IsExact_example = purge_older_than-IsExact env (pos week) aged_store

-- The only record left is the other message.
purge_leaves_other :
    get_elem? (purge_older_than env (pos week) aged_store).0.records 0 ≡ some other_message
unfolding purge_older_than kept_records is_expired ago
purge_leaves_other = refl

listed_leg : lookup (key_of outbound_leg) aged_store.by_delivery ≡ some 0
unfolding lookup key_of delivery_key rec_key text_eq lit
listed_leg = refl

purge_stale_delivery_example :
    Leaves
      (add_record env outbound_leg ((purge_older_than env (pos week) aged_store).0, []))
      0
      (merge_delivery_leg env other_message outbound_leg)
purge_stale_delivery_example =
    purge_stale_delivery env (pos week) aged_store outbound_leg other_message 0 listed_leg
      purge_leaves_other

abbrev spam_verdict : RspamdVerdict
spam_verdict = record {
  action = lit "reject";
  score = lit "18.2";
  message_id = lit "m2@x";
  raw_line = line2;
}

unknown_leg : IsNew outbound_leg empty_store
unfolding lookup
unknown_leg = (refl, refl)

none_pending : lookup outbound_leg.queue_id empty_store.rspamd_pending ≡ none
unfolding lookup
none_pending = refl

verdict_meets_record_example :
    (w : Work) × (x : Work) × (add_record env outbound_leg (empty_store, []) ≡ some w)
    × (add_record env outbound_leg
          ((apply_rspamd_verdict outbound_leg.queue_id spam_verdict empty_store).0, [])
        ≡ some x)
    × ((apply_rspamd_verdict outbound_leg.queue_id spam_verdict w.0).0 ≡ x.0)
verdict_meets_record_example =
    verdict_meets_record env outbound_leg spam_verdict empty_store [] refl refl refl unknown_leg
      none_pending
