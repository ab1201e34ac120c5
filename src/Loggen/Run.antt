-- ===== src/Loggen/Run.antt =====
-- tools/loggen/main.go: a whole run, from the days that are asked for to the files that are written.
use plv.Prelude.{
  pos, ℕ, zero, suc, ◌+◌, ◌-◌, ◌*◌, ◌/◌, Bool, true, false, ltb, ◌==◌, if◌then◌else◌, List, [], ◌∷◌,
  ◌++◌,
}
use plv.Go.Text.{Text}
use plv.Go.Time.{Time, hour}
use plv.Go.Strconv.{negative}
use plv.Go.Sort.{sort_stable}
use plv.Loggen.{Gen, ◌>>=◌, pure, pick_kind, weighted_hour, file_from}
use plv.Loggen.Data.{
  MailKind, LogFile, files, delivered, spam, no_queue, bounced, deferred, virus, blocked,
}
use plv.Loggen.Draft.{Entry}
use plv.Loggen.Message.{message_lines}

-- What changes in the generator.
pub record Progress (R : Type 0) : Type 0 where
  pub rng : R
  pub buckets : List (List Entry)
  pub counts : MailKind → ℕ

unfoldable pub kind_index : MailKind → ℕ
kind_index delivered = 0
kind_index spam = 1
kind_index no_queue = 2
kind_index bounced = 3
kind_index deferred = 4
kind_index virus = 5
kind_index blocked = 6

unfoldable pub count_kind : MailKind → (MailKind → ℕ) → MailKind → ℕ
count_kind k counts j = if kind_index j == kind_index k then counts j + 1 else counts j

unfoldable pub append_at : ℕ → List Entry → List (List Entry) → List (List Entry)
append_at i l [] = []
append_at zero l (b ∷ bs) = (b ++ l) ∷ bs
append_at (suc i) l (b ∷ bs) = b ∷ append_at i l bs

unfoldable pub no_buckets : List LogFile → List (List Entry)
no_buckets [] = []
no_buckets (f ∷ fs) = [] ∷ no_buckets fs

-- WriteString and WriteByte of each line
unfoldable pub content : List Entry → Text
content [] = []
content (e ∷ es) = e.text ++ 10 ∷ content es

unfoldable pub is_earlier : Entry → Entry → Bool
is_earlier a b = ltb a.ts b.ts

module _ {R F : Type 0} (g : Gen R F) where
  -- The whole days of an age; one that is from the future would have a negative age.
  unfoldable pub file_for : Time → ℕ
  file_for ts = file_from ((g.now - ts) / (24 * hour)) 0 files

  unfoldable pub message : Time → Progress R → Progress R
  message ts s =
      let (k, r) = pick_kind g s.rng in
      let d = (message_lines g k (record { rng = r; cur = ts; lines = [] })).1 in
      record {
        rng = d.rng;
        buckets = append_at (file_for ts) d.lines s.buckets;
        counts = count_kind k s.counts;
      }

  -- A time on the day.
  unfoldable pub some_time : Time → R → Time × R
  some_time day = do
    h ← weighted_hour g
    m ← g.int_n 60
    s ← g.int_n 60
    us ← g.int_n 1_000_000
    pure (g.clock_on day h m s (us * 1000))

  unfoldable pub one_message : Time → Progress R → Progress R
  one_message day s =
      let (ts, r) = some_time day s.rng in
      let s1 = record s { rng = r } in if ltb g.now ts then s1 else message ts s1

  unfoldable pub messages : ℕ → Time → Progress R → Progress R
  messages zero day s = s
  messages (suc n) day s = messages n day (one_message day s)

  unfoldable pub one_day : ℕ → Time → Progress R → Progress R
  one_day per_day day s =
      let factor = if g.is_weekend day then g.constant "0.45" else g.constant "1.0" in
      let (f, r) = g.float64 s.rng in
      let scale = g.add (g.constant "0.8") (g.mul (g.constant "0.4") f) in
      messages (g.truncate (g.mul (g.mul (g.of_int per_day) factor) scale)) day
        (record s { rng = r })

  -- The n days from day d on.
  unfoldable pub each_day : ℕ → Time → ℕ → ℕ → Progress R → Progress R
  each_day per_day start d zero s = s
  each_day per_day start d (suc n) s =
      each_day per_day start (suc d) n (one_day per_day (g.add_days start (pos d)) s)

  unfoldable pub generate : ℕ → ℕ → R → Progress R
  generate days per_day r =
      each_day per_day (g.add_days g.now (negative days)) 0 days
        (record { rng = r; buckets = no_buckets files; counts = λ k. 0 })

-- `gzip` compresses a content, and `create` writes a file of the output directory: the state of the disk,
-- and the success.
module _ {D : Type 0} (gzip : Text → Text) (create : Text → Text → D → D × Bool) where
  unfoldable pub write_file : LogFile → List Entry → D → D × Bool
  write_file f lines = create f.name (if f.gzip then gzip (content lines) else content lines)

  -- The files that are left with their buckets; the first error ends the loop.
  unfoldable pub write_each : List LogFile → List (List Entry) → D → D × Bool
  write_each [] buckets d = (d, true)
  write_each (f ∷ fs) [] d = (d, true)
  write_each (f ∷ fs) (b ∷ bs) d =
      let (d1, done) = write_file f (sort_stable is_earlier b) d in
      elim done [ true ↦ write_each fs bs d1 | false ↦ (d1, false) ]

  -- The Boolean is the success of MkdirAll.
  unfoldable pub write_files : Bool → List (List Entry) → D → D × Bool
  write_files false buckets d = (d, false)
  write_files true buckets d = write_each files buckets d
