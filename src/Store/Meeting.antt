-- ===== src/Store/Meeting.antt =====
-- A record and the verdict of rspamd on it meet in store.go: AddRecords with applyPendingRspamd, and
-- ApplyRspamdVerdict.
use plv.Prelude.{
  ℕ, ◌≡◌, refl, ◌∙◌, sym, ap, true, false, List, [], ◌∷◌, ◌++◌, Option, none, some, arith,
  if◌then◌else◌, if_false, length, set, get_elem?, get_elem?-append_last,
}
use plv.Go.Text.{Text, is_empty, text_eq_refl}
use plv.Go.Map.{Map, lookup, insert, delete, lookup-insert_self}
use plv.Go.Time.{Env}
use plv.Go.Time.Parse.{◌>>=◌}
use plv.Records.{Record}
use plv.Rspamd.{RspamdVerdict, enrich_with_rspamd}
use plv.Store.{Store, rec_key, key_of, persisting}
use plv.Store.Add.{
  Work, put_record, snapshot, apply_pending, settle, append_record, expecting, add_known,
  note_origin, add_record,
}
use plv.Store.Verdicts.{local_row, apply_rspamd_verdict}

delete-insert :
    (k : Text) (v : RspamdVerdict) (m : Map RspamdVerdict)
    → lookup k m ≡ none
    → delete k (insert k v m) ≡ m
unfolding lookup insert delete
delete-insert k v [] h = ground (arith, text_eq_refl k)
delete-insert k v ((j, w) ∷ m) h = ground (arith, delete-insert k v m)

set-append_last :
    (xs : List Record) (x y : Record) → set (xs ++ x ∷ []) (length xs) y ≡ xs ++ y ∷ []
set-append_last [] x y = refl
set-append_last (z ∷ xs) x y = ap (◌∷◌ z) (set-append_last xs x y)

-- Nothing is known of the record: neither a row, nor a primary that expects it.
abbrev pub IsNew : Record → Store → Type 0
IsNew r s = (lookup (key_of r) s.by_queue_id ≡ none) × (lookup (key_of r) s.by_delivery ≡ none)

abbrev appended : Record → Store → Store
appended r s = record (note_origin r s) {
  by_queue_id = insert (key_of r) (length s.records) s.by_queue_id;
  records = s.records ++ r ∷ [];
}

add_new :
    (env : Env) (r : Record) (s : Store) (up : List Record)
    → IsNew r s
    → is_empty r.delivery_queue_id ≡ true
    → add_record env r (s, up)
      ≡ (do w ← apply_pending (length s.records) (appended r s, up); snapshot (length s.records) w)
unfolding add_record expecting note_origin add_known append_record settle
add_new env r s up (q, d) e =
    rw (add_record, expecting, d, add_known, q, append_record, settle, e) refl

apply_none :
    (i : ℕ) (r : Record) (t : Store) (up : List Record)
    → get_elem? t.records i ≡ some r
    → lookup r.queue_id t.rspamd_pending ≡ none
    → apply_pending i (t, up) ≡ some (t, up)
unfolding apply_pending
apply_none i r t up e h = ground arith

apply_some :
    (i : ℕ) (r : Record) (v : RspamdVerdict) (t : Store) (up : List Record)
    → get_elem? t.records i ≡ some r
    → lookup r.queue_id t.rspamd_pending ≡ some v
    → apply_pending i (t, up)
      ≡ some (
        record (put_record t i (enrich_with_rspamd r v)) {
          rspamd_pending = delete r.queue_id t.rspamd_pending;
        },
        up,
      )
unfolding apply_pending
apply_some i r v t up e h = ground arith

snapshot_at :
    (i : ℕ) (r : Record) (t : Store) (up : List Record)
    → get_elem? t.records i ≡ some r
    → snapshot i (t, up) ≡ some (t, if persisting t then up ++ r ∷ [] else up)
unfolding snapshot
snapshot_at i r t up e = rw (snapshot, e) refl

-- The end of AddRecords on a record that was appended, without and with a pending verdict.
pending_none :
    (r : Record) (s : Store) (up : List Record)
    → lookup r.queue_id s.rspamd_pending ≡ none
    → (do w ← apply_pending (length s.records) (appended r s, up); snapshot (length s.records) w)
      ≡ some (appended r s, if persisting (appended r s) then up ++ r ∷ [] else up)
unfolding note_origin
pending_none r s up h =
    let last = get_elem?-append_last s.records r in
    rw (apply_none (length s.records) r (appended r s) up last h)
      (snapshot_at (length s.records) r (appended r s) up last)

-- The row that the record and its verdict make.
abbrev met : Record → RspamdVerdict → Store → Store
met r v s = record (put_record (appended r s) (length s.records) (enrich_with_rspamd r v)) {
  rspamd_pending = delete r.queue_id s.rspamd_pending;
}

pending_some :
    (r : Record) (v : RspamdVerdict) (s : Store) (up : List Record)
    → lookup r.queue_id s.rspamd_pending ≡ some v
    → (do w ← apply_pending (length s.records) (appended r s, up); snapshot (length s.records) w)
      ≡ some (met r v s, if persisting (met r v s) then up ++ enrich_with_rspamd r v ∷ [] else up)
unfolding note_origin put_record
pending_some r v s up h =
    let row = enrich_with_rspamd r v in
    let last : get_elem? (met r v s).records (length s.records) ≡ some row =
      rw (set-append_last s.records r row) (get_elem?-append_last s.records row) in
    rw (apply_some (length s.records) r v (appended r s) up (get_elem?-append_last s.records r) h)
      (snapshot_at (length s.records) row (met r v s) up last)

local_key : (r : Record) → r.origin ≡ [] → key_of r ≡ rec_key [] r.queue_id
unfolding key_of
local_key r o = ap (λ t. rec_key t r.queue_id) o

verdict_first :
    (r : Record) (v : RspamdVerdict) (s : Store)
    → r.origin ≡ []
    → IsNew r s
    → (apply_rspamd_verdict r.queue_id v s).0
      ≡ record s { rspamd_pending = insert r.queue_id v s.rspamd_pending }
unfolding apply_rspamd_verdict local_row
verdict_first r v s o (q, d) =
    let missing : lookup (rec_key [] r.queue_id) s.by_queue_id ≡ none = rw (← local_key r o) q in
    rw (apply_rspamd_verdict, local_row, missing) refl

record_first :
    (r : Record) (v : RspamdVerdict) (s : Store)
    → r.origin ≡ []
    → r.subsumed ≡ false
    → (apply_rspamd_verdict r.queue_id v (appended r s)).0
      ≡ put_record (appended r s) (length s.records) (enrich_with_rspamd r v)
unfolding apply_rspamd_verdict local_row note_origin
record_first r v s o n =
    let found : lookup (rec_key [] r.queue_id) (insert (key_of r) (length s.records) s.by_queue_id)
        ≡ some (length s.records) =
      rw (← local_key r o) (lookup-insert_self (key_of r) (length s.records) s.by_queue_id) in
    rw
      (
        apply_rspamd_verdict,
        local_row,
        found,
        get_elem?-append_last s.records r,
        if_false {A = Option (ℕ × Record)} r.subsumed none (some (length s.records, r)) n,
      )
      refl

-- A verdict of rspamd and the local message that it is about, of which the store knows nothing yet and
-- which has no onward queue id, leave the same store in whichever order they arrive.
pub verdict_meets_record :
    (env : Env) (r : Record) (v : RspamdVerdict) (s : Store) (up : List Record)
    → r.origin ≡ []
    → r.subsumed ≡ false
    → is_empty r.delivery_queue_id ≡ true
    → IsNew r s
    → lookup r.queue_id s.rspamd_pending ≡ none
    → (w : Work) × (x : Work) × (add_record env r (s, up) ≡ some w)
      × (add_record env r ((apply_rspamd_verdict r.queue_id v s).0, up) ≡ some x)
      × ((apply_rspamd_verdict r.queue_id v w.0).0 ≡ x.0)
unfolding put_record note_origin
verdict_meets_record env r v s up o n e new p =
    let held = record s { rspamd_pending = insert r.queue_id v s.rspamd_pending } in
    let waits = lookup-insert_self r.queue_id v s.rspamd_pending in
    (
      _,
      _,
      add_new env r s up new e ∙ pending_none r s up p,
      ap (λ t. add_record env r (t, up)) (verdict_first r v s o new)
          ∙ add_new env r held up new e
          ∙ pending_some r v held up waits,
      record_first r v s o n
          ∙ ap
              (λ m. record (put_record (appended r s) (length s.records) (enrich_with_rspamd r v)) {
                rspamd_pending = m;
              })
              (sym (delete-insert r.queue_id v s.rspamd_pending p)),
    )
