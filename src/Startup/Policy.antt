-- ===== src/Startup/Policy.antt =====
-- RETENTION_DAYS in main.go: the policy, and the purge with it when a node starts.
use plv.Prelude.{ℤ, pos, negsuc, ℕ, ◌*◌, Bool, true, false, ◌==◌, if◌then◌else◌, Option, none, some}
use plv.Go.Text.{Text, is_empty}
use plv.Go.Strconv.{atoi}
use plv.Go.Time.{Env, Time, Duration, int64, hour}
use plv.Store.{Store, set_retention_days}
use plv.Store.Purge.{purge_older_than}

-- time.Duration(days) * 24 * time.Hour
unfoldable pub days_duration : ℕ → Duration
days_duration days = int64 (days * 24 * hour)

unfoldable pub positive_days : ℤ × Bool → Option (Option ℕ)
positive_days (pos n, true) = if n == 0 then none else some (some n)
positive_days (pos n, false) = none
positive_days (negsuc n, ok) = none

-- Without the variable nothing is purged; a value that is no positive number ends the program.
unfoldable pub retention_of : Text → Option (Option ℕ)
retention_of text = if is_empty text then some none else positive_days (atoi text)

unfoldable pub purge_expired : Env → ℕ → Store → Store
purge_expired env days s = (purge_older_than env (days_duration days) (set_retention_days s days)).0

unfoldable pub start_retention : Env → Text → Store → Option Store
start_retention env text s = elim (retention_of text) [
  | none ↦ none
  | some none ↦ some s
  | some (some days) ↦ some (purge_expired env days s)
]
