-- ===== src/Web/Session.antt =====
-- SessionStore of handlers.go: tokens and the instants at which they run out. The lock is not
-- modelled: each operation is one step.
pub mod History
use plv.Prelude.{ℕ, ◌+◌, ◌*◌, Bool, false, ltb, if◌then◌else◌, List, [], ◌∷◌, Option, none, some}
use plv.Go.Text.{Text}
use plv.Go.Map.{Map, lookup, insert, delete}
use plv.Go.Strconv.{hex_encode}
use plv.Go.Time.{Time, hour}

abbrev pub Sessions : Type 0
Sessions = Map Time

-- The token of 32 random bytes.
unfoldable pub create : Time → Text → Sessions → Sessions
create now random ss = insert (hex_encode random) (now + 24 * hour) ss

unfoldable pub is_valid : Time → Text → Sessions → Bool
is_valid now token ss = elim (lookup token ss) [ none ↦ false | some expiry ↦ ltb now expiry ]

unfoldable pub remove : Text → Sessions → Sessions
remove token ss = delete token ss

-- One round of cleanup.
unfoldable pub cleanup : Time → Sessions → Sessions
cleanup now [] = []
cleanup now ((t, expiry) ∷ ss) =
    let rest = cleanup now ss in if ltb expiry now then rest else (t, expiry) ∷ rest
