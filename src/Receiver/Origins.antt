-- ===== src/Receiver/Origins.antt =====
-- What a request to the receiver of ingest.go can change: the rows and the configuration of the server
-- that its client certificate names.
use plv.Prelude.{
  ℕ, ◌≡◌, refl, ◌∙◌, sym, ap, inl, inr, Bool, true, false, List, [], ◌∷◌, ◌++◌, Option, none, some,
  keep, get_elem?, set, arith, Bool-cases, Option-cases, zero, suc,
}
use mathlib.Core.Path.{subst}
use plv.Go.Text.{Text, lit, is_empty, text_eq, text_eq_iff}
use plv.Go.Map.{lookup, lookup-insert}
use plv.Go.Net.{Network}
use plv.PostfixConf.{PostfixConf, to_conf}
use plv.Records.{Record}
use plv.Store.{Store, key_of}
use plv.Store.Confs.{is_same_conf, set_postfix_conf_for_origin}
use plv.Store.Ingest.{
  restore_delivery_link, list_record, is_row_of, row_of, place, stamp, ingest_one, ingest_all,
  ingest_snapshots,
}
use plv.Store.Resend.{records-restore, ingest_one-subsumed, ingest_one-listed}
use plv.Receiver.{
  Receiver, Setting, Call, IngestBatch, accept, ingest_batch, ingest_from, handle_ingest,
}

abbrev pub is_of : Text → Record → Bool
is_of origin r = text_eq r.origin origin

-- The rows of a server.
abbrev pub rows_of : Text → Store → List Record
rows_of origin s = keep (is_of origin) s.records

module _ {ℓ} {A : Type ℓ} where
  keep-last : (p : A → Bool) (xs : List A) (v : A) → p v ≡ false → keep p (xs ++ v ∷ []) ≡ keep p xs
  keep-last p [] v h = ground arith
  keep-last p (x ∷ xs) v h = ground (arith, keep-last p xs v)

  keep-set :
      (p : A → Bool) (xs : List A) (i : ℕ) (old v : A)
      → get_elem? xs i ≡ some old
      → p old ≡ false
      → p v ≡ false
      → keep p (set xs i v) ≡ keep p xs
  keep-set p [] i old v e h g = ground arith
  keep-set p (x ∷ xs) zero old v e h g = ground arith
  keep-set p (x ∷ xs) (suc i) old v e h g = ground (arith, keep-set p xs i old v e)

row_of-Row :
    (s : Store) (r : Record) (i : ℕ)
    → row_of s r ≡ some i
    → (row : Record) × (get_elem? s.records i ≡ some row) × (text_eq row.origin r.origin ≡ true)
unfolding row_of is_row_of
row_of-Row s r i e = elim (Option-cases (lookup (key_of r) s.by_queue_id)) [
  | inl n ↦ absurd (ground arith)
  | inr (j, p) ↦ elim (Option-cases (get_elem? s.records j)) [
    | inl n ↦ absurd (ground arith)
    | inr (row, q) ↦ (row, ground arith, ground arith)
  ]
]

-- One record of `origin` leaves the rows of another server as they are.
rows_of-place :
    (other : Text) (r : Record) (s : Store) (x : Option ℕ)
    → text_eq r.origin other ≡ false
    → row_of s r ≡ x
    → rows_of other (place r s) ≡ rows_of other s
unfolding place list_record
rows_of-place other r s none n e =
    rw (place, e, list_record, records-restore) (keep-last (is_of other) s.records r n)
rows_of-place other r s (some i) n e =
    let (row, q, o) = row_of-Row s r i e in
    rw (place, e, records-restore)
      (keep-set (is_of other) s.records i row r q
        (ground (
          arith,
          text_eq_iff row.origin r.origin,
          text_eq_iff row.origin other,
          text_eq_iff r.origin other,
        ))
        n)

rows_of-ingest_one :
    (other origin : Text) (r : Record) (s : Store)
    → text_eq origin other ≡ false
    → rows_of other (ingest_one origin r s) ≡ rows_of other s
unfolding stamp
rows_of-ingest_one other origin r s n = elim (Bool-cases r.subsumed) [
  | inl e ↦ rw (ingest_one-subsumed origin r s e) refl
  | inr e ↦ rw (ingest_one-listed origin r s e) (rows_of-place other (stamp origin r) _ _ n refl)
]

rows_of-ingest_all :
    (other origin : Text) (rs : List Record) (s : Store)
    → text_eq origin other ≡ false
    → rows_of other (ingest_all origin rs s) ≡ rows_of other s
unfolding ingest_all
rows_of-ingest_all other origin [] s n = refl
rows_of-ingest_all other origin (r ∷ rs) s n =
    rows_of-ingest_all other origin rs (ingest_one origin r s) n
    ∙ rows_of-ingest_one other origin r s n

confs-restore :
    (i : ℕ) (r : Record) (s : Store)
    → (restore_delivery_link i r s).pcfg_by_origin ≡ s.pcfg_by_origin
unfolding restore_delivery_link
confs-restore i r s = elim (Bool-cases (is_empty r.delivery_queue_id)) [
  | inl e ↦ rw e refl
  | inr e ↦ rw e refl
]

confs-place :
    (r : Record) (s : Store) (x : Option ℕ)
    → row_of s r ≡ x
    → (place r s).pcfg_by_origin ≡ s.pcfg_by_origin
unfolding place list_record
confs-place r s none e = rw (place, e, list_record) (confs-restore _ r _)
confs-place r s (some i) e = rw (place, e) (confs-restore i r _)

confs-ingest_one :
    (origin : Text) (r : Record) (s : Store)
    → (ingest_one origin r s).pcfg_by_origin ≡ s.pcfg_by_origin
confs-ingest_one origin r s = elim (Bool-cases r.subsumed) [
  | inl e ↦ rw (ingest_one-subsumed origin r s e) refl
  | inr e ↦ rw (ingest_one-listed origin r s e) (confs-place (stamp origin r) _ _ refl)
]

-- A batch leaves the configurations of all servers, and one configuration the rows of all.
confs-ingest_all :
    (origin : Text) (rs : List Record) (s : Store)
    → (ingest_all origin rs s).pcfg_by_origin ≡ s.pcfg_by_origin
unfolding ingest_all
confs-ingest_all origin [] s = refl
confs-ingest_all origin (r ∷ rs) s =
    confs-ingest_all origin rs (ingest_one origin r s) ∙ confs-ingest_one origin r s

-- What a server has: its rows and its configuration.
abbrev pub SameFor : Text → Store → Store → Type 0
SameFor other s t =
    (rows_of other t ≡ rows_of other s)
    × (lookup other t.pcfg_by_origin ≡ lookup other s.pcfg_by_origin)

SameFor-set_conf :
    (show : Network → Text) (other cn : Text) (s : Store) (x : Option PostfixConf)
    → text_eq cn other ≡ false
    → SameFor other s (set_postfix_conf_for_origin show s cn x).0
unfolding set_postfix_conf_for_origin
SameFor-set_conf show other cn s none n = (refl, refl)
SameFor-set_conf show other cn s (some pc) n = elim (Bool-cases (is_empty cn)) [
  | inl e ↦ rw e (refl, refl)
  | inr e ↦ elim (Bool-cases (is_same_conf show (lookup cn s.pcfg_by_origin) pc)) [
    | inl q ↦ rw (e, q) (refl, refl)
    | inr q ↦ rw (e, q) (refl, ground (arith, lookup-insert cn other pc s.pcfg_by_origin))
  ]
]

SameFor-accept :
    (o : Setting) (w : Receiver) (other cn : Text) (b : IngestBatch)
    → text_eq cn other ≡ false
    → SameFor other w.store (accept o w cn b).0.store
unfolding accept ingest_snapshots
SameFor-accept o w other cn b n =
    let kept = (set_postfix_conf_for_origin o.show w.store cn (to_conf o.parse b.conf)).0 in
    let (rows, conf) = SameFor-set_conf o.show other cn w.store (to_conf o.parse b.conf) n in
    (
      rows_of-ingest_all other cn b.records kept n ∙ rows,
      ap (lookup other) (confs-ingest_all cn b.records kept) ∙ conf,
    )

SameFor-ingest_batch :
    (o : Setting) (w : Receiver) (other cn : Text) (body : Option IngestBatch)
    → text_eq cn other ≡ false
    → SameFor other w.store (ingest_batch o w cn body).0.store
unfolding ingest_batch
SameFor-ingest_batch o w other cn none n = (refl, refl)
SameFor-ingest_batch o w other cn (some b) n = elim (Bool-cases (text_eq b.version o.version)) [
  | inl e ↦ rw e (SameFor-accept o w other cn b n)
  | inr e ↦ rw e (refl, refl)
]

SameFor-ingest_from :
    (o : Setting) (w : Receiver) (other cn : Text) (peers : List Text) (body : Option IngestBatch)
    → text_eq cn other ≡ false
    → SameFor other w.store (ingest_from o w (cn ∷ peers) body).0.store
unfolding ingest_from ingest_batch
SameFor-ingest_from o w other cn peers body n = elim (Bool-cases (is_empty cn)) [
  | inl e ↦ rw e (refl, refl)
  | inr e ↦ rw e (SameFor-ingest_batch o w other cn body n)
]

-- Whatever a client sends, the rows and the configuration of every server but the one that its
-- certificate names stay as they were.
pub handle_ingest-SameFor :
    (o : Setting) (w : Receiver) (r : Call) (cn : Text) (peers : List Text) (other : Text)
    → r.peers ≡ cn ∷ peers
    → text_eq cn other ≡ false
    → SameFor other w.store (handle_ingest o w r).0.store
unfolding handle_ingest
handle_ingest-SameFor o w r cn peers other e n = elim (Bool-cases (text_eq r.method (lit "POST"))) [
  | inl p ↦ rw p (
      subst (λ ps. SameFor other w.store (ingest_from o w ps r.batch).0.store) (sym e)
        (SameFor-ingest_from o w other cn peers r.batch n))
  | inr p ↦ rw p (refl, refl)
]
