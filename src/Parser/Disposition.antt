-- ===== src/Parser/Disposition.antt =====
-- deriveDisposition of parser.go, deliversLocal of direction.go and isStatusDisposition of store.go.
use plv.Prelude.{Bool, ◌||◌, ltb, if◌then◌else◌, List, [], ◌∷◌}
use plv.Go.Text.{Text, lit, text_eq, has_prefix, contains, to_lower, is_empty, elem}
use plv.Records.{Record}

unfoldable pub delivers_local : Record → Bool
delivers_local r =
    let relay = to_lower r.relay in
    let sd = to_lower r.status_detail in
    contains relay (lit "dovecot")
    || contains relay (lit "lmtp")
    || contains relay (lit "virtual")
    || contains relay (lit "cyrus")
    || contains relay (lit "maildrop")
    || text_eq relay (lit "local")
    || has_prefix relay (lit "local[")
    || contains sd (lit " saved")
    || contains sd (lit "delivered to mailbox")
    || contains sd (lit "delivered to maildir")
    || contains sd (lit "delivered to command")
    || contains sd (lit "delivered to file")

unfoldable pub reject_disposition : Text → Text
reject_disposition detail =
    if contains detail (lit "spamassassin") || contains detail (lit "spam")
    then lit "spam"
    else if contains detail (lit "virus")
    then lit "virus"
    else lit "rejected"

unfoldable pub derive_disposition : Record → Text
derive_disposition r =
    let st = to_lower r.status in
    let detail = to_lower r.status_detail in
    if has_prefix st (lit "sent")
    then (if delivers_local r then lit "delivered" else lit "sent")
    else if has_prefix st (lit "reject")
    then reject_disposition detail
    else if has_prefix st (lit "bounced")
    then lit "bounced"
    else if has_prefix st (lit "deferred")
    then lit "deferred"
    else if is_empty st
    then (if ltb 0 r.size then lit "received" else lit "incomplete")
    else st

abbrev pub status_dispositions : List Text
status_dispositions =
    lit "sent"
    ∷ lit "delivered"
    ∷ lit "deferred"
    ∷ lit "bounced"
    ∷ lit "rejected"
    ∷ lit "received"
    ∷ lit "incomplete"
    ∷ []

unfoldable pub is_status_disposition : Text → Bool
is_status_disposition d = elem d status_dispositions
