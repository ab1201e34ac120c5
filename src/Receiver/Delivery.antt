-- ===== src/Receiver/Delivery.antt =====
-- The batches that the receiver of ingest.go takes, and what becomes of their records.
use plv.Prelude.{
  ◌≡◌, ◌≤◌, refl, ◌∙◌, sym, ap, ◌⊎◌, inl, inr, true, false, List, [], ◌∷◌, ◌++◌, Option, none, some,
  arith, Bool-cases, if_true, if_false, length,
}
use mathlib.Core.Path.{subst}
use plv.Go.Text.{Text, lit, is_empty, text_eq}
use plv.Records.{Record}
use plv.PostfixConf.{to_conf}
use plv.Store.{Store}
use plv.Store.Confs.{set_postfix_conf_for_origin}
use plv.Store.Ingest.{stamp, ingest_one, ingest_all, ingest_snapshots}
use plv.Store.Rows.{IsListed, ingest_all-IsListed, ingest_one_self}
use plv.Receiver.{
  Receiver, Setting, Call, IngestBatch, Reply, Answer, Fault, refuse, accept, ingest_batch,
  ingest_from, handle_ingest,
}

-- A request that the receiver takes: a POST with the batch `b`, of the receiver's own version, by a
-- client whose certificate has the name `cn`.
abbrev pub IsTaken : Setting → Call → Text → IngestBatch → Type 0
IsTaken o r cn b =
    (peers : List Text) × (r.peers ≡ cn ∷ peers)
    × (r.batch ≡ some b)
    × (text_eq r.method (lit "POST") ≡ true)
    × (is_empty cn ≡ false)
    × (text_eq b.version o.version ≡ true)

abbrev pub IsRefused : Receiver → Receiver × Reply → Type 0
IsRefused w (v, reply) =
    (v ≡ w) × (400 ≤ reply.code) × (f : Fault) × (reply.answer ≡ Answer.fault f)

-- How a request ends: taken, with the work of `accept` done, or refused.
abbrev pub Ends : Setting → Receiver → Call → Type 0
Ends o w r =
    ((cn : Text) × (b : IngestBatch) × IsTaken o r cn b × (handle_ingest o w r ≡ accept o w cn b))
    ⊎ IsRefused w (handle_ingest o w r)

pub handle_taken :
    (o : Setting) (w : Receiver) (r : Call) (cn : Text) (b : IngestBatch)
    → IsTaken o r cn b
    → handle_ingest o w r ≡ accept o w cn b
unfolding handle_ingest ingest_from ingest_batch
handle_taken o w r cn b (peers, p, q, m, n, v) =
    if_true (text_eq r.method (lit "POST")) (ingest_from o w r.peers r.batch) _ m
    ∙ ap (λ ps. ingest_from o w ps r.batch) p
    ∙ if_false (is_empty cn) _ (ingest_batch o w cn r.batch) n
    ∙ ap (ingest_batch o w cn) q
    ∙ if_true (text_eq b.version o.version) (accept o w cn b) _ v

pub IsListed-among :
    (cn : Text) (before after : List Record) (x : Record) (s : Store)
    → x.subsumed ≡ false
    → IsListed (stamp cn x) (ingest_all cn (before ++ x ∷ after) s)
unfolding ingest_all
IsListed-among cn [] after x s n =
    ingest_all-IsListed cn after x (ingest_one cn x s) (ingest_one_self cn x s n)
IsListed-among cn (y ∷ before) after x s n = IsListed-among cn before after x (ingest_one cn y s) n

-- The batch of a request that is taken is acknowledged with the number of its records and with its
-- offsets, and each record of it, unless the forwarder has marked it as subsumed, has a row of the
-- store under the name of the client's certificate.
pub handle_ingest-IsListed :
    (o : Setting) (w : Receiver) (r : Call) (cn : Text) (b : IngestBatch)
    (before after : List Record) (x : Record)
    → IsTaken o r cn b
    → b.records ≡ before ++ x ∷ after
    → x.subsumed ≡ false
    → ((handle_ingest o w r).1
        ≡ record { code = 200; answer = Answer.ack (length b.records) b.checkpoints })
      × IsListed (stamp cn x) (handle_ingest o w r).0.store
unfolding accept ingest_snapshots
handle_ingest-IsListed o w r cn b before after x t e n =
    let kept = (set_postfix_conf_for_origin o.show w.store cn (to_conf o.parse b.conf)).0 in
    rw (handle_taken o w r cn b t) (
      refl,
      subst (λ rs. IsListed (stamp cn x) (ingest_all cn rs kept)) (sym e)
          (IsListed-among cn before after x kept n),
    )

handle_posted :
    (o : Setting) (w : Receiver) (r : Call) (ps : List Text) (body : Option IngestBatch)
    → text_eq r.method (lit "POST") ≡ true
    → r.peers ≡ ps
    → r.batch ≡ body
    → handle_ingest o w r ≡ ingest_from o w ps body
unfolding handle_ingest
handle_posted o w r ps body m p q =
    if_true (text_eq r.method (lit "POST")) (ingest_from o w r.peers r.batch) _ m
    ∙ ap (λ z. ingest_from o w z r.batch) p
    ∙ ap (ingest_from o w ps) q

-- The tests of the body.
named-Ends :
    (o : Setting) (w : Receiver) (r : Call) (cn : Text) (ps : List Text) (body : Option IngestBatch)
    → text_eq r.method (lit "POST") ≡ true
    → r.peers ≡ cn ∷ ps
    → r.batch ≡ body
    → is_empty cn ≡ false
    → Ends o w r
unfolding ingest_from ingest_batch refuse
named-Ends o w r cn ps none m p q e =
    inr (rw (handle_posted o w r (cn ∷ ps) none m p q, e) (refl, omega arith, Fault.bad_body, refl))
named-Ends o w r cn ps (some b) m p q e = elim (Bool-cases (text_eq b.version o.version)) [
  | inl v ↦
      let t : IsTaken o r cn b = (ps, p, q, m, e, v) in inl (cn, b, t, handle_taken o w r cn b t)
  | inr v ↦ inr (
      rw (handle_posted o w r (cn ∷ ps) (some b) m p q, e, v)
        (refl, omega arith, Fault.version_mismatch o.version b.version, refl))
]

-- The tests after that of the method.
posted-Ends :
    (o : Setting) (w : Receiver) (r : Call) (ps : List Text) (body : Option IngestBatch)
    → text_eq r.method (lit "POST") ≡ true
    → r.peers ≡ ps
    → r.batch ≡ body
    → Ends o w r
unfolding ingest_from ingest_batch refuse
posted-Ends o w r [] body m p q =
    inr
      (rw (handle_posted o w r [] body m p q) (refl, omega arith, Fault.certificate_required, refl))
posted-Ends o w r (cn ∷ ps) body m p q = elim (Bool-cases (is_empty cn)) [
  | inl e ↦ inr (
      rw (handle_posted o w r (cn ∷ ps) body m p q, e)
        (refl, omega arith, Fault.no_common_name, refl))
  | inr e ↦ named-Ends o w r cn ps body m p q e
]

-- A request is taken, or the receiver stays exactly as it was and answers with an error, of a status
-- from 400.
pub handle_ingest-Ends : (o : Setting) (w : Receiver) (r : Call) → Ends o w r
unfolding handle_ingest refuse
handle_ingest-Ends o w r = elim (Bool-cases (text_eq r.method (lit "POST"))) [
  | inl m ↦ posted-Ends o w r r.peers r.batch m refl refl
  | inr m ↦ inr (rw m (refl, omega arith, Fault.method_not_allowed, refl))
]
