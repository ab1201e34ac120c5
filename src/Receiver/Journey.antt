-- ===== src/Receiver/Journey.antt =====
-- The records of a forwarder on their way: the batches that Run of forward.go sends, taken by
-- handleIngest of ingest.go one after another.
use plv.Prelude.{
  ℕ, ℤ, pos, ◌≡◌, refl, ap, ◌⊎◌, inl, inr, false, List, [], ◌∷◌, ◌++◌, Option, none, some,
  Bool-cases,
}
use plv.Go.Text.{Text, lit, is_empty, text_eq, text_eq_refl}
use plv.Go.Map.{Map, lookup}
use plv.Go.Time.{Time}
use plv.Go.Net.{Network}
use plv.Records.{Record}
use plv.PostfixConf.{PostfixConf, to_conf}
use plv.Forward.{ForwardState, Checkpoints}
use plv.Forward.Steps.{World, start, Steps}
use plv.Forward.Delivery.{Sublist, received, run-delivers}
use plv.Store.{Store}
use plv.Store.Confs.{is_same_conf, set_postfix_conf_for_origin}
use plv.Store.Ingest.{row_of, stamp, ingest_snapshots}
use plv.Store.Rows.{IsListed, ingest_all-IsListed}
use plv.Receiver.{Receiver, Setting, Call, IngestBatch, accept, handle_ingest}
use plv.Receiver.Delivery.{IsTaken, handle_taken, handle_ingest-IsListed}

-- The offsets under their keys.
unfoldable pub offsets : Text → Option ℕ → Map ℤ
offsets key none = []
offsets key (some n) = (key, pos n) ∷ []

unfoldable pub wire : Text → plv.Forward.IngestBatch → IngestBatch
wire version b = record {
  version = version;
  records = b.records;
  checkpoints =
      offsets (lit "mail.log") b.checkpoints.mail_log
      ++ offsets (lit "rspamd.log") b.checkpoints.rspamd_log;
  conf = b.conf;
}

-- The request of send. `json` is what the receiver's decoder makes of the encoded batch.
unfoldable pub send :
    (IngestBatch → Option IngestBatch) → Text → Text → plv.Forward.IngestBatch → Call
send json version cn b = record {
  method = lit "POST";
  peers = cn ∷ [];
  batch = json (wire version b);
}

unfoldable pub receive :
    (IngestBatch → Option IngestBatch)
    → Setting
    → Text
    → List plv.Forward.IngestBatch
    → Receiver
    → Receiver
receive json o cn [] v = v
receive json o cn (b ∷ bs) v = receive json o cn bs (handle_ingest o v (send json o.version cn b)).0

-- Every batch is read as it was written.
abbrev pub IsFaithful :
    (IngestBatch → Option IngestBatch) → Text → List plv.Forward.IngestBatch → Type 0
IsFaithful json version [] = Unit
IsFaithful json version (b ∷ bs) =
    (json (wire version b) ≡ some (wire version b)) × IsFaithful json version bs

-- x is one of the records.
pub data Has (x : Record) : List Record → Type 0 where
  here : {xs : List Record} → Has x (x ∷ xs)
  there : {y : Record} {xs : List Record} → Has x xs → Has x (y ∷ xs)

Has-Sublist : (x : Record) {xs ys : List Record} → Sublist xs ys → Has x xs → Has x ys
Has-Sublist x Sublist.none_left h = elim h [ ]
Has-Sublist x (Sublist.kept r s) Has.here = Has.here
Has-Sublist x (Sublist.kept r s) (Has.there h) = Has.there (Has-Sublist x s h)
Has-Sublist x (Sublist.left_out r s) h = Has.there (Has-Sublist x s h)

Has-append : (x : Record) (xs ys : List Record) → Has x (xs ++ ys) → Has x xs ⊎ Has x ys
Has-append x [] ys h = inr h
Has-append x (y ∷ xs) ys Has.here = inl Has.here
Has-append x (y ∷ xs) ys (Has.there h) = elim (Has-append x xs ys h) [
  | inl a ↦ inl (Has.there a)
  | inr b ↦ inr b
]

Has-Parts :
    (x : Record) (xs : List Record)
    → Has x xs
    → (before : List Record) × (after : List Record) × (xs ≡ before ++ x ∷ after)
Has-Parts x [] h = elim h [ ]
Has-Parts x (y ∷ xs) Has.here = ([], xs, refl)
Has-Parts x (y ∷ xs) (Has.there h) =
    let (before, after, e) = Has-Parts x xs h in (y ∷ before, after, ap (◌∷◌ y) e)

-- A configuration that arrives leaves the rows findable.
IsListed-set_conf :
    (show : Network → Text) (origin : Text) (c : Option PostfixConf) (q : Record) (s : Store)
    → IsListed q s
    → IsListed q (set_postfix_conf_for_origin show s origin c).0
unfolding set_postfix_conf_for_origin row_of
IsListed-set_conf show origin none q s l = l
IsListed-set_conf show origin (some pc) q s l = elim (Bool-cases (is_empty origin)) [
  | inl e ↦ rw e l
  | inr e ↦ elim (Bool-cases (is_same_conf show (lookup origin s.pcfg_by_origin) pc)) [
    | inl h ↦ rw (e, h) l
    | inr h ↦ rw (e, h) l
  ]
]

IsListed-accept :
    (o : Setting) (v : Receiver) (cn : Text) (b : IngestBatch) (q : Record)
    → IsListed (stamp cn q) v.store
    → IsListed (stamp cn q) (accept o v cn b).0.store
unfolding accept ingest_snapshots
IsListed-accept o v cn b q l =
    let c = to_conf o.parse b.conf in
    let kept = (set_postfix_conf_for_origin o.show v.store cn c).0 in
    ingest_all-IsListed cn b.records q kept (IsListed-set_conf o.show cn c (stamp cn q) v.store l)

module _ (json : IngestBatch → Option IngestBatch) (o : Setting) (cn : Text)
    (named : is_empty cn ≡ false) where
  sent-IsTaken :
      (b : plv.Forward.IngestBatch)
      → json (wire o.version b) ≡ some (wire o.version b)
      → IsTaken o (send json o.version cn b) cn (wire o.version b)
  unfolding send wire text_eq lit
  sent-IsTaken b e = ([], refl, e, refl, named, text_eq_refl o.version)

  receive_keeps :
      (bs : List plv.Forward.IngestBatch) (q : Record) (v : Receiver)
      → IsFaithful json o.version bs
      → IsListed (stamp cn q) v.store
      → IsListed (stamp cn q) (receive json o cn bs v).store
  unfolding receive
  receive_keeps [] q v f l = l
  receive_keeps (b ∷ bs) q v (e, f) l =
      let call = send json o.version cn b in
      let next = (handle_ingest o v call).0 in
      let same = handle_taken o v call cn (wire o.version b) (sent-IsTaken b e) in
      receive_keeps bs q next f (rw same (IsListed-accept o v cn (wire o.version b) q l))

  receive-IsListed :
      (bs : List plv.Forward.IngestBatch) (x : Record) (v : Receiver)
      → IsFaithful json o.version bs
      → x.subsumed ≡ false
      → Has x (received bs)
      → IsListed (stamp cn x) (receive json o cn bs v).store
  unfolding receive received wire
  receive-IsListed [] x v f n h = elim h [ ]
  receive-IsListed (b ∷ bs) x v (e, f) n h =
      let call = send json o.version cn b in
      let next = (handle_ingest o v call).0 in
      elim (Has-append x b.records (received bs) h) [
        | inr later ↦ receive-IsListed bs x next f n later
        | inl now ↦
            let (before, after, p) = Has-Parts x b.records now in
            let (reply, listed) =
              handle_ingest-IsListed o v call cn (wire o.version b) before after x
                (sent-IsTaken b e) p n in
            receive_keeps bs x next f listed
      ]

  -- However a forwarder ran, with a certificate whose name is not empty, and with the receiver's
  -- version: once the receiver has handled the requests that reached it, in their order, every record
  -- that the forwarder knows to be acknowledged has a row under the forwarder's name, unless it is
  -- marked as subsumed. The body of each of these requests is read there as it was written.
  pub run_arrives :
      (now : Time) (saved : Option ForwardState) (w : World) (v : Receiver) (x : Record)
      → Steps (start now saved) w
      → IsFaithful json o.version w.inbox
      → Has x w.acked
      → x.subsumed ≡ false
      → IsListed (stamp cn x) (receive json o cn w.inbox v).store
  run_arrives now saved w v x r f h n =
      let (all, sub, rest) = run-delivers now saved w r in
      receive-IsListed w.inbox x v f n (Has-Sublist x sub h)
