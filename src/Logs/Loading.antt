-- ===== src/Logs/Loading.antt =====
-- Reading the log files of parser.go and rspamd.go into a store whose indexes are in range.
use plv.Prelude.{ℕ, ◌+◌, ◌≡◌, refl, List, [], ◌∷◌, Option, none, some, Option-cases, inl, inr}
use plv.Go.Text.{Text}
use plv.Go.Time.{Env}
use plv.Records.{Record}
use plv.Store.{Store, set_status}
use plv.Store.Add.{Work}
use plv.Store.Index.{IsIndexed, Extends, Extends-refl, Extends-trans}
use plv.Store.Total.{AllFiled, AllFiled-Extends, add_all-total}
use plv.Watch.Scans.{scan_lines-Extends}
use plv.Logs.{LogDir, parse_file, parsing_status, add_file, parse_each, scan_file, scan_each}

-- Every record that the parser yielded of a file is filed; a file that cannot be read yields none.
abbrev IsRead : Store → Option (List Record) → Type 0
IsRead s none = Unit {0}
IsRead s (some rs) = AllFiled s rs

abbrev pub AllRead : Env → (Text → Option Text) → LogDir → Store → List Text → Type 0
AllRead env decode d s [] = Unit {0}
AllRead env decode d s (p ∷ ps) = IsRead s (parse_file env decode d p) × AllRead env decode d s ps

IsRead-Extends : (s t : Store) (o : Option (List Record)) → IsRead s o → Extends s t → IsRead t o
IsRead-Extends s t none h x = tt
IsRead-Extends s t (some rs) h x = AllFiled-Extends s t rs h x

pub AllRead-Extends :
    (env : Env) (decode : Text → Option Text) (d : LogDir) (s t : Store) (ps : List Text)
    → AllRead env decode d s ps
    → Extends s t
    → AllRead env decode d t ps
AllRead-Extends env decode d s t [] h x = tt
AllRead-Extends env decode d s t (p ∷ ps) (h, rest) x =
    (IsRead-Extends s t (parse_file env decode d p) h x, AllRead-Extends env decode d s t ps rest x)

add_file-IsRead :
    (env : Env) (o : Option (List Record)) (s : Store) (up : List Record)
    → IsIndexed s
    → (w : Work) × (add_file env o (s, up) ≡ some w) × Extends s w.0 × IsRead w.0 o
unfolding add_file
add_file-IsRead env none s up h = ((s, up), refl, Extends-refl s h, tt)
add_file-IsRead env (some rs) s up h = add_all-total env rs s up h

pub parse_each-AllRead :
    (env : Env) (decode : Text → Option Text) (d : LogDir) (n i : ℕ) (ps : List Text) (s : Store)
    (up : List Record)
    → IsIndexed s
    → (w : Work) × (parse_each env decode d n i ps (s, up) ≡ some w)
      × Extends s w.0
      × AllRead env decode d w.0 ps
unfolding parse_each set_status
parse_each-AllRead env decode d n i [] s up h = ((s, up), refl, Extends-refl s h, tt)
parse_each-AllRead env decode d n i (p ∷ ps) s up h =
    let s1 = set_status s (parsing_status d p (i + 1) n) in
    let (w, e, x, read) = add_file-IsRead env (parse_file env decode d p) s1 up h in
    let (v, e2, y, rest) = parse_each-AllRead env decode d n (i + 1) ps w.0 w.1 x.0 in
    (
      v,
      rw e e2,
      Extends-trans s w.0 v.0 x y,
      (IsRead-Extends w.0 v.0 (parse_file env decode d p) read y, rest),
    )

scan_file-Extends :
    (d : LogDir) (path : Text) (s : Store) (up : List Record)
    → IsIndexed s
    → Extends s (scan_file d path (s, up)).0
unfolding scan_file
scan_file-Extends d path s up h = elim (Option-cases (d.scan path)) [
  | inl e ↦ rw (scan_file, e) (Extends-refl s h)
  | inr (found, e) ↦ rw (scan_file, e) (scan_lines-Extends found.0 s up h)
]

pub scan_each-Extends :
    (d : LogDir) (ps : List Text) (s : Store) (up : List Record)
    → IsIndexed s
    → Extends s (scan_each d ps (s, up)).0
unfolding scan_each
scan_each-Extends d [] s up h = Extends-refl s h
scan_each-Extends d (p ∷ ps) s up h =
    let sc = scan_file d p (s, up) in
    let x = scan_file-Extends d p s up h in
    Extends-trans s sc.0 (scan_each d ps sc).0 x (scan_each-Extends d ps sc.0 sc.1 x.0)
