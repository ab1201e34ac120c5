-- ===== src/Parser/Verdict.antt =====
-- The content filter's verdicts: filterVerdict and its functions in parser.go.
use plv.Prelude.{
  ◌&&◌, not, if◌then◌else◌, Bool, List, [], ◌∷◌, ◌++◌, Option, none, some, ltb, true, false,
}
use plv.Go.Text.{Text, lit, text_eq, is_empty, elem}
use plv.Go.Regexp.{find, sub, State}
use plv.Go.Sort.{sort_stable}
use plv.Go.Time.{Env}
use plv.Records.{Record}
use plv.Parser.Patterns.{
  re_filter_tag, re_sa_score, re_quarantine, re_accept, re_block, re_filter_handoff,
}
use plv.Parser.Extract.{extract_timestamp}
use plv.Parser.Disposition.{derive_disposition}

pub record FilterVerdict : Type 0 where
  pub filter_id : Text
  pub action : Text
  pub disposition : Text
  pub rule : Text
  pub score : Text
  pub quarantine_id : Text
  pub onward_qid : Text
  pub raw_lines : List Text

abbrev pub no_verdict : FilterVerdict
no_verdict = record {
  filter_id = [];
  action = [];
  disposition = [];
  rule = [];
  score = [];
  quarantine_id = [];
  onward_qid = [];
  raw_lines = [];
}

unfoldable pub with_score : Text → FilterVerdict → FilterVerdict
with_score line v = elim (find re_sa_score line) [
  | none ↦ v
  | some m ↦ record v { score = sub m 1 ++ (lit "/" ++ sub m 2) }
]

unfoldable pub quarantined : State → FilterVerdict → FilterVerdict
quarantined m v = record v {
  action = sub m 1 ++ lit " quarantine";
  quarantine_id = sub m 2;
  rule = sub m 3;
  disposition = if text_eq (sub m 1) (lit "virus") then lit "virus" else lit "spam";
}

unfoldable pub with_action : Text → FilterVerdict → FilterVerdict
with_action line v = elim (find re_quarantine line) [
  | some m ↦ quarantined m v
  | none ↦ elim (find re_accept line) [
    | some m ↦ record v {
      action = lit "accept";
      onward_qid = sub m 1;
      rule = sub m 2;
      disposition = lit "sent";
    }
    | none ↦ elim (find re_block line) [
      | some m ↦ record v { action = lit "block"; disposition = lit "blocked"; rule = sub m 1 }
      | none ↦ v
    ]
  ]
]

-- A line of the filter: its session id and what it says.
unfoldable pub parse_filter_line : Text → Option (Text × FilterVerdict)
parse_filter_line line = elim (find re_filter_tag line) [
  | none ↦ none
  | some m ↦
      let v = record no_verdict { filter_id = sub m 1; raw_lines = line ∷ [] } in
      some (sub m 1, with_action line (with_score line v))
]

unfoldable pub merge_action : FilterVerdict → FilterVerdict → FilterVerdict
merge_action dst src = if is_empty src.action then dst else record dst {
  action = src.action;
  disposition = src.disposition;
  rule = src.rule;
  quarantine_id = src.quarantine_id;
  onward_qid = src.onward_qid;
}

unfoldable pub merge_verdict : FilterVerdict → FilterVerdict → FilterVerdict
merge_verdict dst src =
    let acted = merge_action dst src in
    record acted {
      filter_id = if is_empty dst.filter_id then src.filter_id else dst.filter_id;
      score = if is_empty src.score then dst.score else src.score;
      raw_lines = dst.raw_lines ++ src.raw_lines;
    }

unfoldable pub nested_filter_id : Text → Text
nested_filter_id blob = elim (find re_filter_handoff blob) [ none ↦ [] | some m ↦ sub m 1 ]

-- Keeps the first of equal lines; `seen` holds those before.
unfoldable pub unique_from : List Text → List Text → List Text
unique_from seen [] = []
unique_from seen (l ∷ ls) =
    let rest = unique_from seen ls in
    let fresh = unique_from (l ∷ seen) ls in if elem l seen then rest else l ∷ fresh

abbrev pub before : Env → Text → Text → Bool
before env a b = ltb (extract_timestamp env a) (extract_timestamp env b)

unfoldable pub sort_raw_by_time : Env → List Text → List Text
sort_raw_by_time env lines = sort_stable (before env) (unique_from [] lines)

abbrev pub is_none : List Text → Bool
is_none [] = true
is_none (l ∷ ls) = false

unfoldable pub enrich_from_verdict : Env → Record → FilterVerdict → Record
enrich_from_verdict env rec v =
    let named = record rec {
      scanner = lit "pmg-smtp-filter";
      filter_id = v.filter_id;
      filter_action = v.action;
      spam_score = v.score;
      filter_rule = v.rule;
      delivery_queue_id =
          if text_eq v.action (lit "accept") && not (is_empty v.onward_qid)
          then v.onward_qid
          else rec.delivery_queue_id;
      raw_lines =
          if is_none v.raw_lines
          then rec.raw_lines
          else sort_raw_by_time env (rec.raw_lines ++ v.raw_lines);
    } in
    record named {
      disposition = if is_empty v.disposition then derive_disposition named else v.disposition;
    }
