-- ===== src/Tests/Admissions.antt =====
-- A new CA and the enrolment of one node.
use plv.Prelude.{Option, ◌/◌, ◌*◌, ◌≡◌, refl, true, false, [], ◌∷◌, some, arith}
use plv.Go.Text.{lit, is_empty}
use plv.Go.Map.{lookup}
use plv.Go.Strconv.Hex.{IsBytes}
use plv.Go.Time.{second}
use plv.Pki.{
  leaf_template, Certificate, CertificateRequest, Crypto, ca_template, file_exists, pki_init,
  ticket_for,
}
use plv.Receiver.{EnrollRequest, Reply, Answer, handle_enroll}
use plv.Receiver.Admission.{pki_init-admits}
use plv.Tests.Samples.{env}
use plv.Tests.Receivers.{toy, setting, receiver}

abbrev request : CertificateRequest
request = record { common_name = lit "gw1"; public_key = lit "gw1"; is_signed = true }

toy_salt_valid : IsBytes (97 ∷ 255 ∷ [])
toy_salt_valid = ground arith

no_ca : file_exists (lit "ca.pem") [] ≡ false
unfolding file_exists lookup
no_ca = refl

node_name : is_empty (lit "gw1") ≡ false
unfolding lit
node_name = refl

-- What pkiInit gets; the enrolment has another serial number, and reads the times in whole seconds.
abbrev salted : Crypto
salted = record toy { new_salt = some (97 ∷ 255 ∷ []) }

abbrev read_back : Certificate
read_back =
    let t = ca_template env.now (lit "1") in
    record t {
      not_before = t.not_before / second * second;
      not_after = t.not_after / second * second;
    }

abbrev later : Crypto
later = record toy { new_serial = some (lit "2"); parse_certificate = λ t. some read_back }

pki_init-admits_example :
    ((pki_init salted env.now []).1 ≡ true)
    × (handle_enroll
          (record setting { crypto = later })
          env.now
          (record receiver { files = (pki_init salted env.now []).0 })
          (lit "POST")
          (some (record {
            cn = lit "gw1";
            ticket = ticket_for later (97 ∷ 255 ∷ []) (lit "gw1");
            csr = lit "gw1";
          }))
        ≡ record { code = 200; answer = Answer.enrolled (lit "gw1") (lit "PLV CA") })
unfolding ca_template lit leaf_template
pki_init-admits_example =
    pki_init-admits salted later (lit "k") (lit "1") (lit "2") (97 ∷ 255 ∷ []) (lit "k")
      (lit "PLV CA") read_back env.now (λ name content files. refl) (λ kind bytes. refl) refl refl
      refl refl refl toy_salt_valid refl refl refl refl setting receiver env.now [] (lit "gw1")
      (lit "gw1") (lit "gw1") (lit "gw1") request no_ca node_name refl refl refl refl refl

abbrev granted : EnrollRequest → Option Reply
granted req = some (record { code = 200; answer = Answer.enrolled (lit "c") (lit "d") })
