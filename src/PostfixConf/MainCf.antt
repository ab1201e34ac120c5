-- ===== src/PostfixConf/MainCf.antt =====
-- postfixconf.go: main.cf, its variables, and the fields of a value. A file is the lines that
-- bufio.Scanner yields, and whether it ended without an error.
use plv.Prelude.{
  false, ℕ, zero, suc, Bool, ◌||◌, ◌==◌, if◌then◌else◌, List, [], ◌∷◌, ◌++◌, Option, none, some,
}
use plv.Go.Text.{Text, lit, is_empty, trim_space, trim_func, has_prefix, contains, cut, fields_func}
use plv.Go.Map.{Map, insert, lookup_or}
use plv.Go.Regexp.{Pattern, ◌⋅◌, text, one, optional, plus, group, is_word, among, replace_all}

-- \$\{?(\w+)\}?
unfoldable pub re_main_cf_var : Pattern
re_main_cf_var =
    text (lit "$")
    ⋅ optional (text (lit "{"))
    ⋅ group 1 (plus (one is_word))
    ⋅ optional (text (lit "}"))

-- The variables of the loop: the map, the key and the value so far.
pub record Entries : Type 0 where
  pub params : Map Text
  pub key : Text
  pub value : Text

unfoldable pub flush_entry : Entries → Entries
flush_entry e = record {
  params = if is_empty e.key then e.params else insert e.key (trim_space e.value) e.params;
  key = [];
  value = [];
}

is_continuation : Text → Bool
is_continuation [] = false
is_continuation (c ∷ s) = c == 32 || c == 9

unfoldable pub read_entry : Entries → Text → Entries
unfolding is_continuation
read_entry e line =
    let trimmed = trim_space line in
    if is_empty trimmed || has_prefix trimmed (lit "#")
    then e
    else if is_continuation line
    then record e { value = e.value ++ (32 ∷ trimmed) }
    else elim (cut b'=' line) [
      | none ↦ flush_entry e
      | some (k, v) ↦ record (flush_entry e) { key = trim_space k; value = trim_space v }
    ]

unfoldable pub read_entries : Entries → List Text → Entries
read_entries e [] = e
read_entries e (l ∷ ls) = read_entries (read_entry e l) ls

pub record File : Type 0 where
  pub lines : List Text
  pub complete : Bool

-- The parameters of a file that was opened, or none for the scanner's error.
unfoldable pub parse_main_cf : File → Option (Map Text)
parse_main_cf f =
    let e = flush_entry (read_entries (record { params = []; key = []; value = [] }) f.lines) in
    if f.complete then some e.params else none

-- At most n rounds of substitution.
unfoldable pub expand_rounds : ℕ → Map Text → Text → Text
expand_rounds zero params val = val
expand_rounds (suc n) params val =
    let next =
      replace_all re_main_cf_var (λ m. lookup_or (trim_func (among (lit "${}")) m) [] params) val in
    let more = expand_rounds n params next in if contains val (lit "$") then more else val

unfoldable pub expand_main_cf : Map Text → Text → Text
expand_main_cf = expand_rounds 10

unfoldable pub split_fields : Text → List Text
split_fields = fields_func (λ c. c == 32 || c == 9 || c == b',')
