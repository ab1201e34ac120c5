-- ===== src/Tests/Receivers.antt =====
-- The receiver at one batch and one enrolment.
use plv.Prelude.{pos, ◌≡◌, refl, true, false, [], ◌∷◌, Option, none, some, length}
use plv.Go.Text.{lit, text_eq}
use plv.Go.Map.{insert}
use plv.Store.Ingest.{stamp, ingest_one}
use plv.Store.Resend.{ingest_one_again}
use plv.Store.Rows.{IsListed}
use plv.Pki.{Crypto, Certificate}
use plv.Receiver.{Receiver, Setting, Call, IngestBatch, EnrollRequest, Answer, handle_ingest}
use plv.Receiver.Origins.{SameFor, handle_ingest-SameFor}
use plv.Receiver.Delivery.{IsTaken, Ends, handle_ingest-IsListed, handle_ingest-Ends}
use plv.Tests.Samples.{inbound_leg, outbound_leg, empty_store}

abbrev ca : Certificate
ca = record {
  serial = [];
  common_name = lit "PLV CA";
  not_before = 0;
  not_after = 10;
  is_ca = true;
  usage = [];
  ip_addresses = [];
  dns_names = [];
}

-- A toy in which every file is its own content and a signature is the name that is signed.
abbrev pub toy : Crypto
toy = record {
  hmac = λ salt cn. cn;
  new_key = some (lit "k");
  new_serial = some (lit "1");
  new_salt = some (lit "s");
  public_of = λ k. k;
  marshal_key = λ k. some k;
  parse_key = λ k. some k;
  pem_encode = λ kind bytes. bytes;
  pem_decode = λ t. some t;
  parse_certificate = λ t. some ca;
  parse_request = λ t. some (record { common_name = t; public_key = t; is_signed = true });
  create_request = λ cn k. some cn;
  create_certificate = λ leaf parent subject key. some leaf.common_name;
  mkdir = true;
  write = λ name content files. (insert name content files, true);
}

abbrev pub setting : Setting
setting = record { version = lit "1"; show = λ n. []; parse = λ t. none; crypto = toy }

abbrev pub receiver : Receiver
receiver = record {
  store = empty_store;
  files =
      (lit "ca.pem", lit "c") ∷ (lit "ca-key.pem", lit "k") ∷ (lit "ticket-salt", lit "6162") ∷ [];
  upserted = [];
}

abbrev batch : IngestBatch
batch = record {
  version = lit "1";
  records = inbound_leg ∷ outbound_leg ∷ [];
  checkpoints = (lit "mail.log", pos 80) ∷ [];
  conf = none;
}

abbrev call : Call
call = record { method = lit "POST"; peers = lit "gw1" ∷ []; batch = some batch }

taken : IsTaken setting call (lit "gw1") batch
unfolding text_eq lit
taken = ([], refl, refl, refl, refl, refl)

handle_ingest-IsListed_example :
    ((handle_ingest setting receiver call).1
      ≡ record { code = 200; answer = Answer.ack (length batch.records) batch.checkpoints })
    × IsListed (stamp (lit "gw1") outbound_leg) (handle_ingest setting receiver call).0.store
handle_ingest-IsListed_example =
    handle_ingest-IsListed setting receiver call (lit "gw1") batch (inbound_leg ∷ []) []
      outbound_leg taken refl refl

handle_ingest-Ends_example : Ends setting receiver call
handle_ingest-Ends_example = handle_ingest-Ends setting receiver call

other_server : text_eq (lit "gw1") (lit "gw2") ≡ false
unfolding text_eq lit
other_server = refl

handle_ingest-SameFor_example :
    SameFor (lit "gw2") receiver.store (handle_ingest setting receiver call).0.store
handle_ingest-SameFor_example =
    handle_ingest-SameFor setting receiver call (lit "gw1") [] (lit "gw2") refl other_server

abbrev enrolment : Option EnrollRequest
enrolment = some (record { cn = lit "gw1"; ticket = lit "677731"; csr = lit "gw1" })

ingest_one_again_example :
    ingest_one (lit "gw1") inbound_leg (ingest_one (lit "gw1") inbound_leg empty_store)
    ≡ ingest_one (lit "gw1") inbound_leg empty_store
ingest_one_again_example = ingest_one_again (lit "gw1") inbound_leg empty_store
