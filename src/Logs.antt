-- ===== src/Logs.antt =====
-- The log files of parser.go and rspamd.go: which there are, in which order they are read, and what
-- reading them does to the store. What the operating system and the packages filepath, sort and gzip
-- give is the record LogDir.
pub mod Loading
use plv.Prelude.{
  ltb, ℕ, ◌+◌, ℤ, pos, negsuc, Bool, true, false, not, ◌&&◌, ◌||◌, ◌==◌, if◌then◌else◌, List, [],
  ◌∷◌, ◌++◌, Option, none, some, length,
}
use plv.Go.Text.{Text, lit, is_empty, trim_prefix, has_suffix}
use plv.Go.Strconv.{atoi, itoa}
use plv.Go.Time.{Env}
use plv.Go.Time.Parse.{◌>>=◌}
use plv.Records.{Record}
use plv.Parser.Lines.{parse_lines}
use plv.Store.{Store, set_status}
use plv.Store.Add.{Work, add_all}
use plv.Watch.Scanner.{Scan, scan_lines}

pub record LogDir : Type 0 where
  -- filepath.Join of the directory and a name in it, Dir and Base of a path
  pub within : Text → Text
  pub dir : Text → Text
  pub base : Text → Text
  -- the files of a pattern
  pub glob : Text → List Text
  -- sort.Slice, which leaves the order of equal elements open
  pub sort : (Text → Text → Bool) → List Text → List Text
  -- the lines that a scanner yields of a file, decompressed where its name ends in .gz, and whether
  -- it ended without an error; none for a file that cannot be opened
  pub scan : Text → Option (List Text × Bool)
  -- Stat: the size, and whether it is a directory
  pub stat : Text → Option (ℕ × Bool)

unfoldable pub parse_file : Env → (Text → Option Text) → LogDir → Text → Option (List Record)
parse_file env decode d path = elim (d.scan path) [
  | none ↦ none
  | some found ↦ if found.1 then some (parse_lines env decode found.0) else none
]

trim_suffix : Text → Text → Text
trim_suffix [] suffix = []
trim_suffix (c ∷ s) suffix =
    let rest = trim_suffix s suffix in
    if has_suffix (c ∷ s) suffix && length (c ∷ s) == length suffix then [] else c ∷ rest

-- The number of a rotated file; -1 for a name that is no number.
unfoldable pub log_file_number : Text → Text → ℤ
unfolding trim_suffix
log_file_number path base =
    let suffix = trim_prefix path base in
    let (n, good) = atoi (trim_suffix (trim_prefix suffix (lit ".")) (lit ".gz")) in
    if is_empty suffix then pos 0 else if good then n else negsuc 0

abbrev is_zero : ℤ → Bool
is_zero (pos n) = n == 0
is_zero (negsuc n) = false

abbrev gt : ℤ → ℤ → Bool
gt (pos m) (pos n) = ltb n m
gt (pos m) (negsuc n) = true
gt (negsuc m) (pos n) = false
gt (negsuc m) (negsuc n) = ltb m n

-- The oldest file first, the live one last.
unfoldable pub before_log : (Text → ℤ) → Text → Text → Bool
before_log number a b =
    if is_zero (number a)
    then false
    else if is_zero (number b)
    then true
    else gt (number a) (number b)

unfoldable pub discover_log_files : LogDir → List Text
discover_log_files d =
    d.sort (before_log (λ p. log_file_number p (d.within (lit "mail.log"))))
      (d.glob (d.within (lit "mail.log*")))

-- `join` is filepath.Join
unfoldable pub rspamd_file_number : LogDir → (Text → Text → Text) → Text → ℤ
rspamd_file_number d join path = log_file_number path (join (d.dir path) (lit "rspamd.log"))

unfoldable pub discover_rspamd_logs : LogDir → (Text → Text → Text) → List Text
discover_rspamd_logs d join =
    d.sort (before_log (rspamd_file_number d join))
      (d.glob (d.within (lit "rspamd/rspamd.log*")) ++ d.glob (d.within (lit "rspamd.log*")))

is_file : Option (ℕ × Bool) → Bool
is_file none = false
is_file (some (n, is_dir)) = not is_dir

-- The first of the two places that holds the scanner's log; empty for neither.
unfoldable pub active_rspamd_log : LogDir → Text
unfolding is_file
active_rspamd_log d =
    if is_file (d.stat (d.within (lit "rspamd/rspamd.log")))
    then d.within (lit "rspamd/rspamd.log")
    else if is_file (d.stat (d.within (lit "rspamd.log")))
    then d.within (lit "rspamd.log")
    else []

unfoldable pub parsing_status : LogDir → Text → ℕ → ℕ → Text
parsing_status d path i n =
    lit "parsing "
    ++ (d.base path ++ (lit " (" ++ (itoa (pos i) ++ (lit "/" ++ (itoa (pos n) ++ lit ")")))))

unfoldable pub add_file : Env → Option (List Record) → Work → Option Work
add_file env none w = some w
add_file env (some rs) w = add_all env rs w

-- The loop over the files, of which `i` are done and there are `n`.
unfoldable pub parse_each :
    Env → (Text → Option Text) → LogDir → ℕ → ℕ → List Text → Work → Option Work
parse_each env decode d n i [] w = some w
parse_each env decode d n i (p ∷ ps) (s, up) = do
  w ← add_file env (parse_file env decode d p) (set_status s (parsing_status d p (i + 1) n), up)
  parse_each env decode d n (i + 1) ps w

unfoldable pub size_of : Option (ℕ × Bool) → ℕ
size_of none = 0
size_of (some (n, is_dir)) = n

-- The store with its snapshots, and the offset of the live log; 0 where there is no file.
unfoldable pub parse_all_logs : Env → (Text → Option Text) → LogDir → Work → Option (Work × ℕ)
parse_all_logs env decode d w = do
  v ← parse_each env decode d (length (discover_log_files d)) 0 (discover_log_files d) w
  some (
    v,
    if length (discover_log_files d) == 0 then 0 else size_of (d.stat (d.within (lit "mail.log"))),
  )

-- The lines of a file, whatever ended them.
unfoldable pub scan_file : LogDir → Text → Scan → Scan
scan_file d path sc = elim (d.scan path) [ none ↦ sc | some found ↦ (scan_lines found.0 sc).0 ]

unfoldable pub scan_each : LogDir → List Text → Scan → Scan
scan_each d [] sc = sc
scan_each d (p ∷ ps) sc = scan_each d ps (scan_file d p sc)

unfoldable pub parse_all_rspamd : LogDir → (Text → Text → Text) → Scan → Scan
parse_all_rspamd d join sc = scan_each d (discover_rspamd_logs d join) sc
