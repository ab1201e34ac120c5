-- ===== src/Receiver.antt =====
-- ingest.go: the receiver of the distributed mode. A handler takes the receiver and a request, and
-- gives what it holds afterwards and the reply. A body that does not decode is none.
pub mod Origins
pub mod Enrolment
pub mod Delivery
pub mod Journey
pub mod Admission
pub mod Node
use plv.Prelude.{
  ℕ, ℤ, Bool, true, false, not, ◌||◌, if◌then◌else◌, List, [], ◌∷◌, ◌++◌, Option, none, some,
}
use plv.Go.Text.{Text, lit, text_eq, is_empty}
use plv.Go.Map.{Map, lookup}
use plv.Go.Time.{Time}
use plv.Go.Net.{Network}
use plv.Records.{Record}
use plv.PostfixConf.{ConfPayload, to_conf}
use plv.Store.{Store}
use plv.Store.Confs.{set_postfix_conf_for_origin}
use plv.Store.Ingest.{ingest_snapshots}
use plv.Pki.{Files, Crypto, ca_cert_file, load_ticket_salt, valid_ticket, sign_csr}

pub record IngestBatch : Type 0 where
  pub version : Text
  pub records : List Record
  pub checkpoints : Map ℤ
  pub conf : Option ConfPayload

pub data Fault : Type 0 where
  certificate_required no_common_name bad_body bad_request not_initialised invalid_ticket : Fault
  not_signed no_ca method_not_allowed : Fault
  version_mismatch : Text → Text → Fault

pub data Answer : Type 0 where
  -- the number of records accepted, and the offsets of the batch
  ack : ℕ → Map ℤ → Answer
  -- the certificate and that of the CA
  enrolled : Text → Text → Answer
  fault : Fault → Answer

pub record Reply : Type 0 where
  pub code : ℕ
  pub answer : Answer

unfoldable pub refuse : ℕ → Fault → Reply
refuse code f = record { code = code; answer = Answer.fault f }

-- The server, and the rows that its last operation handed to the database.
pub record Receiver : Type 0 where
  pub store : Store
  pub files : Files
  pub upserted : List Record

-- What does not change while it runs: its build, the two halves of net.IPNet's text form, and crypto.
pub record Setting : Type 0 where
  pub version : Text
  pub show : Network → Text
  pub parse : Text → Option Network
  pub crypto : Crypto

-- A request to /ingest: its method, the common names of the certificates that the TLS layer verified,
-- and its body.
pub record Call : Type 0 where
  pub method : Text
  pub peers : List Text
  pub batch : Option IngestBatch

pub record EnrollRequest : Type 0 where
  pub cn : Text
  pub ticket : Text
  pub csr : Text

unfoldable pub accept : Setting → Receiver → Text → IngestBatch → Receiver × Reply
accept o w cn b =
    let (kept, changed) = set_postfix_conf_for_origin o.show w.store cn (to_conf o.parse b.conf) in
    let (store, rows, n) = ingest_snapshots cn b.records kept in
    (
      record w { store = store; upserted = rows },
      record { code = 200; answer = Answer.ack n b.checkpoints },
    )

unfoldable pub ingest_batch : Setting → Receiver → Text → Option IngestBatch → Receiver × Reply
ingest_batch o w cn none = (w, refuse 400 Fault.bad_body)
ingest_batch o w cn (some b) =
    if text_eq b.version o.version
    then accept o w cn b
    else (w, refuse 426 (Fault.version_mismatch o.version b.version))

unfoldable pub ingest_from : Setting → Receiver → List Text → Option IngestBatch → Receiver × Reply
ingest_from o w [] body = (w, refuse 401 Fault.certificate_required)
ingest_from o w (cn ∷ peers) body =
    if is_empty cn then (w, refuse 403 Fault.no_common_name) else ingest_batch o w cn body

unfoldable pub handle_ingest : Setting → Receiver → Call → Receiver × Reply
handle_ingest o w r =
    if text_eq r.method (lit "POST")
    then ingest_from o w r.peers r.batch
    else (w, refuse 405 Fault.method_not_allowed)

-- The certificate for a request whose ticket is valid.
unfoldable pub issue : Setting → Time → Receiver → EnrollRequest → Reply
issue o now w req = elim (sign_csr o.crypto now w.files req.csr req.cn) [
  | none ↦ refuse 400 Fault.not_signed
  | some cert ↦ elim (lookup ca_cert_file w.files) [
    | none ↦ refuse 500 Fault.no_ca
    | some ca ↦ record { code = 200; answer = Answer.enrolled cert ca }
  ]
]

unfoldable pub enroll : Setting → Time → Receiver → EnrollRequest → Reply
enroll o now w req = elim (load_ticket_salt w.files) [
  | none ↦ refuse 500 Fault.not_initialised
  | some salt ↦
      if is_empty req.cn || not (valid_ticket o.crypto salt req.cn req.ticket)
      then refuse 403 Fault.invalid_ticket
      else issue o now w req
]

-- The receiver is left as it was.
unfoldable pub handle_enroll : Setting → Time → Receiver → Text → Option EnrollRequest → Reply
handle_enroll o now w method body =
    if text_eq method (lit "POST")
    then elim body [ none ↦ refuse 400 Fault.bad_request | some req ↦ enroll o now w req ]
    else refuse 405 Fault.method_not_allowed
