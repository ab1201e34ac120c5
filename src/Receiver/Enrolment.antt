-- ===== src/Receiver/Enrolment.antt =====
-- Enrolment with the receiver of ingest.go: who gets a certificate, and what is in it.
use plv.Prelude.{◌≡◌, true, false, Option, some}
use plv.Go.Text.{Text, lit, is_empty}
use plv.Go.Map.{lookup}
use plv.Go.Time.{Time}
use plv.Pki.{
  Usage, Certificate, CertificateRequest, Crypto, Files, ca_cert_file, leaf_template, load_ca,
  load_ticket_salt, ticket_for,
}
use plv.Receiver.{enrolled, fault, ack, Receiver, Setting, EnrollRequest, Answer}

-- The certificate that is given for a name: that of a leaf, for the client's side of TLS, whose key is
-- the one of a request that names it and is signed with it; it is signed with the key of the CA.
abbrev pub IsIssued : Crypto → Time → Files → Text → Text → Type 0
IsIssued c now files cn cert =
    (csr : CertificateRequest) × (ca : Certificate) × (key : Text) × (serial : Text) × (der : Text)
    × (load_ca c files ≡ some (ca, key))
    × (csr.common_name ≡ cn)
    × (csr.is_signed ≡ true)
    × (c.create_certificate (leaf_template now serial cn Usage.client_auth) ca csr.public_key key
        ≡ some der)
    × (cert ≡ c.pem_encode (lit "CERTIFICATE") der)

-- A certificate in an answer was earned: with a name, its ticket for the salt of the receiver, and a
-- request that signs for it.
abbrev pub IsEarned : Setting → Time → Receiver → Option EnrollRequest → Answer → Type 0
IsEarned o now w body (ack n m) = Unit
IsEarned o now w body (fault f) = Unit
IsEarned o now w body (enrolled cert ca) =
    (req : EnrollRequest) × (salt : Text) × (body ≡ some req)
    × (load_ticket_salt w.files ≡ some salt)
    × (req.ticket ≡ ticket_for o.crypto salt req.cn)
    × (is_empty req.cn ≡ false)
    × (lookup ca_cert_file w.files ≡ some ca)
    × IsIssued o.crypto now w.files req.cn cert
