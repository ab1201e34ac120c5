-- ===== src/Rspamd.antt =====
-- rspamd.go: verdicts of the scanner's own log.
use plv.Prelude.{not, if◌then◌else◌, List, [], ◌∷◌, ◌++◌, Option, none, some}
use plv.Go.Text.{Text, lit, text_eq, is_empty, contains, elem}
use plv.Go.Regexp.{sub}
use plv.Go.Time.{Time, Zone, Env}
use plv.Go.Time.Parse.{parse_date_time}
use plv.Records.{Record}
use plv.Parser.Patterns.{re_rspamd_qid, re_rspamd_id, re_rspamd_action, re_rspamd_time}
use plv.Parser.Extract.{on_match}

pub record RspamdVerdict : Type 0 where
  pub action : Text
  pub score : Text
  pub message_id : Text
  pub raw_line : Text

unfoldable pub parse_rspamd_line : Text → Option (Text × RspamdVerdict)
parse_rspamd_line line =
    if not (contains line (lit "rspamd_task_write_log"))
    then none
    else on_match re_rspamd_qid line none λ qm. on_match re_rspamd_action line none λ am. some (
      sub qm 1,
      record {
        action = sub am 1;
        score = sub am 2;
        message_id = on_match re_rspamd_id line [] (λ im. sub im 1);
        raw_line = line;
      },
    )

unfoldable pub rspamd_disposition : Text → Text
rspamd_disposition action =
    if text_eq action (lit "reject")
    then lit "spam"
    else if elem action (lit "soft reject" ∷ lit "greylist" ∷ [])
    then lit "deferred"
    else []

unfoldable pub append_new : List Text → Text → List Text
append_new ls l = if is_empty l then ls else if elem l ls then ls else ls ++ l ∷ []

unfoldable pub enrich_with_rspamd : Record → RspamdVerdict → Record
enrich_with_rspamd rec v =
    let d = rspamd_disposition v.action in
    record rec {
      scanner = lit "rspamd";
      filter_action = v.action;
      spam_score = if is_empty v.score then rec.spam_score else v.score;
      message_id = if is_empty rec.message_id then v.message_id else rec.message_id;
      disposition = if is_empty d then rec.disposition else d;
      raw_lines = append_new rec.raw_lines v.raw_line;
    }

-- extractRspamdTimeIn
unfoldable pub extract_rspamd_time_in : Zone → Text → Time
extract_rspamd_time_in loc line =
    on_match re_rspamd_time line 0
      λ m. elim (parse_date_time (sub m 1)) [ none ↦ 0 | some w ↦ loc.instant w ]

unfoldable pub extract_rspamd_time : Env → Text → Time
extract_rspamd_time env = extract_rspamd_time_in env.local
