-- ===== src/Store/Verdicts.antt =====
-- ApplyRspamdVerdict and PruneRspamdPending of store.go.
use plv.Prelude.{
  ℕ, ◌-◌, Bool, true, false, ◌||◌, ◌==◌, ltb, if◌then◌else◌, List, [], ◌∷◌, Option, none, some,
  get_elem?,
}
use plv.Go.Text.{Text}
use plv.Go.Map.{Map, lookup, insert}
use plv.Go.Time.{Env, Time}
use plv.Records.{Record}
use plv.Rspamd.{RspamdVerdict, enrich_with_rspamd, extract_rspamd_time}
use plv.Store.{Store, rec_key, persisting}
use plv.Store.Add.{put_record}

-- The listed record of a local queue id.
unfoldable pub local_row : Store → Text → Option (ℕ × Record)
local_row s qid = elim (lookup (rec_key [] qid) s.by_queue_id) [
  | none ↦ none
  | some i ↦ elim (get_elem? s.records i) [
    | none ↦ none
    | some r ↦ if r.subsumed then none else some (i, r)
  ]
]

-- The store, the snapshots to flush, and whether a record matched.
unfoldable pub apply_rspamd_verdict : Text → RspamdVerdict → Store → Store × List Record × Bool
apply_rspamd_verdict qid v s = elim (local_row s qid) [
  | none ↦ (record s { rspamd_pending = insert qid v s.rspamd_pending }, [], false)
  | some (i, r) ↦ (
    put_record s i (enrich_with_rspamd r v),
    if persisting s then enrich_with_rspamd r v ∷ [] else [],
    true,
  )
]

unfoldable pub is_stale : Env → Time → RspamdVerdict → Bool
is_stale env cutoff v = let ts = extract_rspamd_time env v.raw_line in ts == 0 || ltb ts cutoff

unfoldable pub prune_map : Env → Time → Map RspamdVerdict → Map RspamdVerdict
prune_map env cutoff [] = []
prune_map env cutoff ((k, v) ∷ m) =
    let rest = prune_map env cutoff m in if is_stale env cutoff v then rest else (k, v) ∷ rest

unfoldable pub prune_rspamd_pending : Env → ℕ → Store → Store
prune_rspamd_pending env max_age s = record s {
  rspamd_pending = prune_map env (env.now - max_age) s.rspamd_pending;
}
