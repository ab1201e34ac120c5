-- ===== src/Store/Purge.antt =====
-- PurgeOlderThan of store.go, on the records in memory.
use plv.Prelude.{ℕ, suc, Bool, not, ◌&&◌, ◌==◌, ltb, List, [], ◌∷◌, length, keep}
use plv.Go.Map.{Map, insert}
use plv.Go.Time.{Env, Time, Duration, ago}
use plv.Records.{Record}
use plv.Store.{Store, key_of}

unfoldable pub is_expired : Time → Record → Bool
is_expired cutoff r = not (r.timestamp == 0) && ltb r.timestamp cutoff

-- The index of the records from position i on, added to an index.
unfoldable pub index_from : ℕ → Map ℕ → List Record → Map ℕ
index_from i m [] = m
index_from i m (r ∷ rs) = index_from (suc i) (insert (key_of r) i m) rs

unfoldable pub kept_records : Time → List Record → List Record
kept_records cutoff = keep (λ r. not (is_expired cutoff r))

-- The store and the number of records purged. The index of deliveries is left as it was.
unfoldable pub purge_older_than : Env → Duration → Store → Store × ℕ
purge_older_than env d s =
    let kept = kept_records (ago env.now d) s.records in
    (
      record s { records = kept; by_queue_id = index_from 0 [] kept },
      length (keep (is_expired (ago env.now d)) s.records),
    )
