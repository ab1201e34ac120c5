-- ===== src/Detail/Found.antt =====
-- GetDetail of store.go after AddRecords.
use plv.Prelude.{◌≡◌, refl, ap, List, [], ◌∷◌, map, some, arith}
use plv.Go.Text.{Text}
use plv.Go.Time.{Env, Zone}
use plv.Records.{Record}
use plv.Store.{Store, key_of}
use plv.Store.Add.{Work, add_record}
use plv.Store.Index.{IsIndexed, Sub}
use plv.Store.Total.{add_record-Added}
use plv.Detail.{RecordDetail, log_line, log_location, detail_of, get_detail}

raw-log_line :
    (env : Env) (zone : Zone) (ls : List Text) → map (λ l. l.raw) (map (log_line env zone) ls) ≡ ls
unfolding log_line
raw-log_line env zone [] = refl
raw-log_line env zone (l ∷ ls) = ap (◌∷◌ l) (raw-log_line env zone ls)

-- Once a record was added to a store whose indexes are in range, the detail of its queue id is there
-- and shows all its lines.
pub get_detail-add_record :
    (env : Env) (r : Record) (s : Store) (up : List Record)
    → IsIndexed s
    → (w : Work) × (d : RecordDetail) × (add_record env r (s, up) ≡ some w)
      × (get_detail env w.0 r.origin r.queue_id ≡ some (some d))
      × Sub r.raw_lines (map (λ l. l.raw) d.lines)
unfolding get_detail key_of detail_of
get_detail-add_record env r s up h =
    let (w, e, x, (i, row, k, p, sub)) = add_record-Added env r s up h in
    let shown = raw-log_line env (log_location env row.raw_lines) row.raw_lines in
    (w, detail_of env w.0 row, e, ground arith, rw shown sub)
