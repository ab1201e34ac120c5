-- ===== src/Tests/Tails.antt =====
-- The live tail at a small file.
use plv.Prelude.{
  true, ap, ◌∙◌, keep, ◌+◌, map, any, List, ◌≡◌, ◌≤◌, refl, false, [], ◌∷◌, ◌++◌, Option, none,
  some, length, drop,
}
use plv.Go.Text.{trim_right, text_eq, Text, lit, contains, has_prefix}
use plv.Go.Regexp.{
  find, find_from, ◌⋅◌, text, one, step_over, nothing, plus, except, among, star, star_from, group,
  group_in, sub, times, up_to, or_else, optional, is_hex, is_digit, is_alpha, is_word, is_blank,
  matches, lazy_star, lazy_from, at_start, is_any,
}
use plv.Parser.Patterns.{re_filter_tag, queue_id_re}
use plv.Parser.Verdict.{parse_filter_line}
use plv.Go.Map.{IsMap, lookup}
use plv.Parser.Lines.{queued, kind_of, queue_id}
use plv.Store.Index.{Extends}
use plv.Watch.{process_lines, Watcher, Live, new_watcher, tick, flush_stale}
use plv.Watch.Bytes.{total, has_newline}
use plv.Watch.Tail.{tick-total}
use plv.Watch.Finished.{process_lines-IsFiled}
use plv.Store.Total.{AllFiled}
use plv.Watch.Flush.{messages_of, IsTreated, flush_stale-IsTreated}
use plv.Watch.Groups.{bare, is_filing, is_of, group_lines, IsOpen}
use plv.Watch.Held.{process_lines-IsHeld}
use plv.Tests.Samples.{env, line1, line2, empty_store, empty_store-IsIndexed}

abbrev no_words : Text → Option Text
no_words t = none

-- The last line is not finished.
abbrev file : Text
file = line1 ++ (10 ∷ line2)

tick-total_example :
    (l : Live) × (tick env no_words file (new_watcher 0, (empty_store, [])) ≡ some l)
    × Extends empty_store l.1.0
    × (l.0.offset ≤ length file)
    × (has_newline (drop l.0.offset file) ≡ false)
tick-total_example =
    tick-total env no_words file (new_watcher 0) empty_store [] empty_store-IsIndexed

abbrev new_line : Text
new_line =
    lit "2026-06-30T09:59:00+10:00 mx postfix/smtpd[12]: 5ABCDEF0123: client=a.example[203.0.113.9]"

-- Of the two groups the first is old and the second is not.
abbrev halfway : Watcher
halfway = record (new_watcher 80) {
  pending = (lit "4ABCDEF0123", line1 ∷ []) ∷ (lit "5ABCDEF0123", new_line ∷ []) ∷ [];
}

one_group : IsMap halfway.pending
unfolding lookup text_eq lit
one_group = (refl, (refl, tt))

there : lookup (lit "4ABCDEF0123") halfway.pending ≡ some (line1 ∷ [])
unfolding lookup text_eq lit
there = refl

flush_stale-IsTreated_example :
    (l : Live) × (flush_stale env no_words (halfway, (empty_store, [])) ≡ some l)
    × Extends empty_store l.1.0
    × (l.0.offset ≡ halfway.offset)
    × IsTreated env no_words halfway.verdicts (lit "4ABCDEF0123") line1 [] l
flush_stale-IsTreated_example =
    flush_stale-IsTreated env no_words halfway empty_store [] (lit "4ABCDEF0123") line1 []
      empty_store-IsIndexed one_group there

line1_kind : kind_of env line1 ≡ queued (lit "4ABCDEF0123")
unfolding kind_of contains has_prefix lit parse_filter_line find find_from re_filter_tag ◌⋅◌ text
    one step_over queue_id queue_id_re nothing plus except among star star_from group group_in sub
    times up_to or_else optional is_hex is_digit is_alpha is_word is_blank matches lazy_star
    lazy_from at_start is_any
line1_kind = refl

line1_goes_on : contains line1 (lit ": removed") ≡ false
unfolding contains has_prefix lit
line1_goes_on = refl

new_line_kind : kind_of env new_line ≡ queued (lit "5ABCDEF0123")
unfolding kind_of contains has_prefix lit parse_filter_line find find_from re_filter_tag ◌⋅◌ text
    one step_over queue_id queue_id_re nothing plus except among star star_from group group_in sub
    times up_to or_else optional is_hex is_digit is_alpha is_word is_blank matches lazy_star
    lazy_from at_start is_any
new_line_kind = refl

new_line_goes_on : contains new_line (lit ": removed") ≡ false
unfolding contains has_prefix lit
new_line_goes_on = refl

-- Two lines of one message with one of another between them.
abbrev held_lines : List Text
held_lines = (line1 ++ 10 ∷ []) ∷ (new_line ++ 10 ∷ []) ∷ (line1 ++ 10 ∷ []) ∷ []

bare_lines : map bare held_lines ≡ line1 ∷ new_line ∷ line1 ∷ []
unfolding trim_right lit
bare_lines = refl

line1_files_none : is_filing env line1 ≡ false
line1_files_none = rw line1_kind line1_goes_on

new_line_files_none : is_filing env new_line ≡ false
new_line_files_none = rw new_line_kind new_line_goes_on

nothing_pending : IsOpen env (new_watcher 80)
unfolding new_watcher
nothing_pending qid = (refl, refl)

none_files : any (is_filing env) (line1 ∷ new_line ∷ line1 ∷ []) ≡ false
none_files = rw (line1_files_none, new_line_files_none) refl

open_lines : any (is_filing env) (map bare held_lines) ≡ false
open_lines = ap (any (is_filing env)) bare_lines ∙ none_files

process_lines-IsHeld_example :
    (v : Watcher) × (process_lines env no_words held_lines (new_watcher 80, (empty_store, []))
      ≡ some (v, (empty_store, [])))
    × (v.offset ≡ (new_watcher 80).offset + total held_lines)
    × ((qid : Text)
        → group_lines env qid v
          ≡ group_lines env qid (new_watcher 80) ++ keep (is_of env qid) (map bare held_lines))
process_lines-IsHeld_example =
    process_lines-IsHeld env no_words held_lines (new_watcher 80) (empty_store, []) open_lines
      nothing_pending

abbrev removed_line : Text
removed_line = lit "2026-06-30T06:12:02+10:00 mx postfix/qmgr[9]: 4ABCDEF0123: removed"

abbrev last_line : Text
last_line = removed_line ++ 10 ∷ []

bare-last_line : bare last_line ≡ removed_line
unfolding trim_right lit
bare-last_line = refl

removed_kind : kind_of env removed_line ≡ queued (lit "4ABCDEF0123")
unfolding kind_of contains has_prefix lit parse_filter_line find find_from re_filter_tag ◌⋅◌ text
    one step_over queue_id queue_id_re nothing plus except among star star_from group group_in sub
    times up_to or_else optional is_hex is_digit is_alpha is_word is_blank matches lazy_star
    lazy_from at_start is_any
removed_kind = refl

removed_says_so : contains removed_line (lit ": removed") ≡ true
unfolding contains has_prefix lit
removed_says_so = refl

process_lines-IsFiled_example :
    (v : Watcher) × (l : Live) × (group : List Text) × (process_lines env no_words held_lines
        (new_watcher 80, (empty_store, []))
      ≡ some (v, (empty_store, [])))
    × (process_lines env no_words (held_lines ++ last_line ∷ []) (new_watcher 80, (empty_store, []))
        ≡ some l)
    × Extends empty_store l.1.0
    × (l.0.offset ≡ (new_watcher 80).offset + (total held_lines + length last_line))
    × (lookup (lit "4ABCDEF0123") l.0.pending ≡ none)
    × (keep (is_of env (lit "4ABCDEF0123")) group
        ≡ (group_lines env (lit "4ABCDEF0123") (new_watcher 80)
            ++ keep (is_of env (lit "4ABCDEF0123")) (map bare held_lines))
          ++ bare last_line ∷ [])
    × AllFiled l.1.0 (messages_of env no_words v.verdicts group)
process_lines-IsFiled_example =
    process_lines-IsFiled env no_words held_lines last_line (lit "4ABCDEF0123") (new_watcher 80)
      empty_store [] empty_store-IsIndexed open_lines nothing_pending
      (ap (kind_of env) bare-last_line ∙ removed_kind)
      (ap (λ t. contains t (lit ": removed")) bare-last_line ∙ removed_says_so)
