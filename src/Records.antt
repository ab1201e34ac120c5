-- ===== src/Records.antt =====
-- store.go: the record of one message.
use plv.Prelude.{ℕ, Bool, false, List, [], ◌∷◌, if◌then◌else◌}
use plv.Go.Text.{Text, lit, text_eq, is_empty, fields, to_lower}
use plv.Go.Time.{Time}

pub record Record : Type 0 where
  pub timestamp : Time
  pub origin : Text
  pub queue_id : Text
  pub from : Text
  pub to : Text
  pub subject : Text
  pub size : ℕ
  pub message_id : Text
  pub status : Text
  pub status_detail : Text
  pub relay : Text
  pub client : Text
  pub tls : Text
  pub raw_lines : List Text
  pub disposition : Text
  pub scanner : Text
  pub filter_action : Text
  pub spam_score : Text
  pub filter_rule : Text
  pub filter_id : Text
  pub delivery_queue_id : Text
  pub subsumed : Bool

-- Record{}
abbrev pub blank : Record
blank = record {
  timestamp = 0;
  origin = [];
  queue_id = [];
  from = [];
  to = [];
  subject = [];
  size = 0;
  message_id = [];
  status = [];
  status_detail = [];
  relay = [];
  client = [];
  tls = [];
  raw_lines = [];
  disposition = [];
  scanner = [];
  filter_action = [];
  spam_score = [];
  filter_rule = [];
  filter_id = [];
  delivery_queue_id = [];
  subsumed = false;
}

-- The effective outcome, or the first word of the status for records that have none.
unfoldable pub disposition_or_status : Record → Text
disposition_or_status r =
    if is_empty r.disposition
    then elim (fields r.status) [ [] ↦ [] | w ∷ ws ↦ to_lower w ]
    else r.disposition

unfoldable pub is_noqueue_reject : Record → Bool
is_noqueue_reject r = text_eq r.filter_action (lit "noqueue-reject")
