-- ===== src/Startup/Resume.antt =====
-- bringUpParsing of main.go: the store and the offsets that a node starts with.
use plv.Prelude.{
  ℕ, ◌≡◌, ◌≤◌, ◌<◌, refl, ◌∙◌, Bool, true, false, ◌⊎◌, List, Option, none, some, Bool-cases, inl,
  inr, arith, if◌then◌else◌, if_true, if_false, ap, length, ◌==◌,
}
use plv.Go.Text.{Text, lit, is_empty}
use plv.Go.Time.{Env}
use plv.Records.{Record}
use plv.Store.{Store, set_ready}
use plv.Store.Index.{IsIndexed, Extends, Extends-refl, Extends-trans}
use plv.Forward.{ForwardState}
use plv.Watch.{new_watcher}
use plv.Logs.{
  LogDir, active_rspamd_log, size_of, discover_log_files, parse_all_logs, parse_all_rspamd,
  discover_rspamd_logs, scan_each,
}
use plv.Logs.Loading.{AllRead, AllRead-Extends, parse_each-AllRead, scan_each-Extends}
use plv.Startup.{Started, started, resumes, resume_at, parse_history, bring_up_parsing}

-- A node that came up has a ready store that lost nothing.
abbrev pub IsUp : Store → Started → Type 0
IsUp s x = Extends s x.work.0 × (x.work.0.ready ≡ true)

-- It went on from its checkpoint: the rows are untouched, and the tail starts just there, in the file.
abbrev pub IsResumed : LogDir → Option ForwardState → Store → List Record → Started → Type 0
IsResumed d resume s up x =
    (st : ForwardState) × (resume ≡ some st)
    × (x.mail.offset ≡ st.mail)
    × (st.mail ≤ size_of (d.stat (d.within (lit "mail.log"))))
    × (x.work.0.records ≡ s.records)
    × (x.work.1 ≡ up)

-- It read its logs: what the parser yields of any of the mail logs is filed, and the tail starts at the
-- end of the live one, or at 0 where there is no log.
abbrev pub IsParsed : Env → (Text → Option Text) → LogDir → Started → Type 0
IsParsed env decode d x =
    AllRead env decode d x.work.0 (discover_log_files d)
    × (x.mail.offset ≡ (
        if length (discover_log_files d) == 0
        then 0
        else size_of (d.stat (d.within (lit "mail.log")))))

parse_history-IsParsed :
    (env : Env) (decode : Text → Option Text) (d : LogDir) (join : Text → Text → Text) (s : Store)
    (up : List Record)
    → IsIndexed s
    → (x : Started) × (parse_history env decode d join (s, up) ≡ some x)
      × IsUp s x
      × IsParsed env decode d x
unfolding parse_history parse_all_logs started new_watcher set_ready parse_all_rspamd
parse_history-IsParsed env decode d join s up h =
    let files = discover_log_files d in
    let (w, e, x, all) = parse_each-AllRead env decode d (length files) 0 files s up h in
    let y = scan_each-Extends d (discover_rspamd_logs d join) w.0 w.1 x.0 in
    let sc = scan_each d (discover_rspamd_logs d join) w in
    let size : ℕ = if length files == 0 then 0 else size_of (d.stat (d.within (lit "mail.log"))) in
    let rspamd : ℕ =
      if is_empty (active_rspamd_log d) then 0 else size_of (d.stat (active_rspamd_log d)) in
    (
      started d sc size rspamd,
      rw e refl,
      (Extends-trans s w.0 sc.0 x y, refl),
      (AllRead-Extends env decode d w.0 (set_ready sc.0) files all y, refl),
    )

resumes-le :
    (resume : Option ForwardState) (info : Option (ℕ × Bool))
    → resumes resume info ≡ true
    → (st : ForwardState) × (resume ≡ some st) × (0 < st.mail) × (st.mail ≤ size_of info)
unfolding resumes size_of
resumes-le none info e = absurd (ground arith)
resumes-le (some st) none e = absurd (ground arith)
resumes-le (some st) (some (size, is_dir)) e = (st, refl, ground arith, ground arith)

-- On a store whose indexes are in range, a node comes up whatever its log files hold: no key, row or
-- line of the store is lost, and the store is ready. Where the log still reaches the checkpoint, the
-- rows are untouched and the tail starts just there, inside the file. Otherwise every message that the
-- parser yields of any of the mail logs that were found is filed: its key resolves, and one row holds
-- all its lines; and the tail starts at the end of the live log, or at 0 where there is no log. What
-- the logs hold is read once: lines that Postfix adds while they are parsed are not covered.
pub bring_up_parsing-IsUp :
    (env : Env) (decode : Text → Option Text) (d : LogDir) (join : Text → Text → Text)
    (resume : Option ForwardState) (s : Store) (up : List Record)
    → IsIndexed s
    → (x : Started) × (bring_up_parsing env decode d join resume (s, up) ≡ some x)
      × IsUp s x
      × (((resumes resume (d.stat (d.within (lit "mail.log"))) ≡ false) × IsParsed env decode d x)
          ⊎ IsResumed d resume s up x)
unfolding bring_up_parsing
bring_up_parsing-IsUp env decode d join resume s up h =
    let info = d.stat (d.within (lit "mail.log")) in
    elim (Bool-cases (resumes resume info)) [
      | inr e ↦
          let (x, p, q, parsed) = parse_history-IsParsed env decode d join s up h in
          (x, if_false _ _ _ e ∙ p, q, inl (e, parsed))
      | inl e ↦
          let (st, p, pos_mail, le) = resumes-le resume info e in
          unfold started new_watcher set_ready resume_at in
          (
            started d (s, up) st.mail st.rspamd,
            if_true _ _ _ e ∙ ap (λ z. some (resume_at d z (s, up))) p,
            (Extends-refl s h, refl),
            inr (st, p, refl, le, refl, refl),
          )
    ]
