-- ===== src/Receiver/Admission.antt =====
-- A new CA of pki.go and the enrolment with it of a node that has its ticket.
use plv.Prelude.{
  ◌≡◌, refl, ◌∙◌, ap, true, false, not, ◌||◌, ◌&&◌, none, some, arith, if_true, if_false,
}
use plv.Go.Text.{Text, lit, is_empty, text_eq, text_eq_refl, text_eq_iff}
use plv.Go.Map.{lookup, insert, lookup-insert, lookup-insert_self}
use plv.Go.Time.{Time}
use plv.Go.Strconv.{hex_encode}
use plv.Go.Strconv.Hex.{IsBytes, hex_decode-hex_encode, trim_space-hex_encode}
use plv.Pki.{
  Usage, Certificate, CertificateRequest, Crypto, Files, ca_cert_file, ca_key_file, salt_file,
  file_exists, and_write, write_cert, write_key, write_salt, load_cert, load_key, load_ca,
  ca_template, new_ca, pki_init, leaf_template, check_request, sign_csr, load_ticket_salt,
  ticket_for, valid_ticket,
}
use plv.Receiver.{Receiver, Setting, Answer, issue, enroll, handle_enroll}

-- `c` is what one run of pkiInit gets of the machine and of Go's packages, `c2` what the enrolment gets
-- later: its serial number is its own, and `ca` is what it reads the CA's certificate back as.
module _ (c c2 : Crypto) (key serial leaf_serial salt key_der der : Text) (ca : Certificate)
    (now : Time)
    (writes : (name content : Text) (files : Files)
      → c.write name content files ≡ (insert name content files, true))
    (pem : (kind bytes : Text) → c2.pem_decode (c.pem_encode kind bytes) ≡ some bytes)
    (directory : c.mkdir ≡ true) (has_key : c.new_key ≡ some key)
    (has_serial : c.new_serial ≡ some serial) (next_serial : c2.new_serial ≡ some leaf_serial)
    (has_salt : c.new_salt ≡ some salt) (bytes : IsBytes salt)
    (marshalled : c.marshal_key key ≡ some key_der) (parsed_key : c2.parse_key key_der ≡ some key)
    (signed : c.create_certificate
        (ca_template now serial)
        (ca_template now serial)
        (c.public_of key)
        key
      ≡ some der)
    (parsed : c2.parse_certificate der ≡ some ca) where
  abbrev ca_pem : Text
  ca_pem = c.pem_encode (lit "CERTIFICATE") der

  -- The files that pkiInit leaves.
  abbrev ca_files : Files → Files
  ca_files files = insert salt_file (hex_encode salt) (
      insert ca_key_file (c.pem_encode (lit "EC PRIVATE KEY") key_der)
        (insert ca_cert_file ca_pem files))

  write_cert-done :
      (files : Files)
      → write_cert c ca_cert_file der (files, true) ≡ (insert ca_cert_file ca_pem files, true)
  unfolding write_cert and_write
  write_cert-done files = writes ca_cert_file ca_pem files

  write_key-done :
      (files : Files)
      → write_key c ca_key_file key (files, true)
        ≡ (insert ca_key_file (c.pem_encode (lit "EC PRIVATE KEY") key_der) files, true)
  unfolding write_key and_write
  write_key-done files = rw (write_key, marshalled) (writes ca_key_file _ files)

  write_salt-done :
      (files : Files)
      → write_salt c (files, true) ≡ (insert salt_file (hex_encode salt) files, true)
  unfolding write_salt
  write_salt-done files = rw (write_salt, has_salt) (writes salt_file (hex_encode salt) files)

  new_ca-made : new_ca c now ≡ some (key, der)
  unfolding new_ca
  new_ca-made = rw (has_key, has_serial, signed) refl

  pki_init-done :
      (files : Files)
      → file_exists ca_cert_file files ≡ false
      → pki_init c now files ≡ (ca_files files, true)
  unfolding pki_init
  pki_init-done files h =
      if_false (file_exists ca_cert_file files || not c.mkdir) _ _ (rw (h, directory) refl)
      ∙ rw new_ca-made (
          ap (λ w. write_salt c (write_key c ca_key_file key w)) (write_cert-done files)
          ∙ ap (write_salt c) (write_key-done _)
          ∙ write_salt-done _)

  lookup-salt : (files : Files) → lookup salt_file (ca_files files) ≡ some (hex_encode salt)
  lookup-salt files = lookup-insert_self salt_file (hex_encode salt) _

  lookup-ca_key :
      (files : Files)
      → lookup ca_key_file (ca_files files) ≡ some (c.pem_encode (lit "EC PRIVATE KEY") key_der)
  unfolding text_eq lit
  lookup-ca_key files =
      lookup-insert salt_file ca_key_file (hex_encode salt) _ ∙ lookup-insert_self ca_key_file _ _

  lookup-ca_cert : (files : Files) → lookup ca_cert_file (ca_files files) ≡ some ca_pem
  unfolding text_eq lit
  lookup-ca_cert files =
      lookup-insert salt_file ca_cert_file (hex_encode salt) _
      ∙ lookup-insert ca_key_file ca_cert_file _ _
      ∙ lookup-insert_self ca_cert_file ca_pem files

  salt_again : (files : Files) → load_ticket_salt (ca_files files) ≡ some salt
  unfolding load_ticket_salt
  salt_again files =
      rw (lookup-salt files, trim_space-hex_encode salt bytes) (hex_decode-hex_encode salt bytes)

  ca_again : (files : Files) → load_ca c2 (ca_files files) ≡ some (ca, key)
  unfolding load_ca load_cert load_key
  ca_again files = rw (lookup-ca_cert files, pem, parsed, lookup-ca_key files, pem, parsed_key) refl

  check_request_own :
      (csr : CertificateRequest) (cn : Text)
      → csr.is_signed ≡ true
      → csr.common_name ≡ cn
      → check_request csr cn ≡ some csr
  unfolding check_request
  check_request_own csr cn g m =
      if_true (csr.is_signed && text_eq csr.common_name cn) (some csr) none
        (ground (arith, text_eq_iff csr.common_name cn))

  sign_csr-made :
      (later : Time) (files : Files) (cn csr_pem csr_der cert_der : Text) (csr : CertificateRequest)
      → c2.pem_decode csr_pem ≡ some csr_der
      → c2.parse_request csr_der ≡ some csr
      → csr.is_signed ≡ true
      → csr.common_name ≡ cn
      → c2.create_certificate
          (leaf_template later leaf_serial cn Usage.client_auth)
          ca
          csr.public_key
          key
        ≡ some cert_der
      → sign_csr c2 later (ca_files files) csr_pem cn
        ≡ some (c2.pem_encode (lit "CERTIFICATE") cert_der)
  unfolding sign_csr
  sign_csr-made later files cn csr_pem csr_der cert_der csr p q g m made =
      rw (ca_again files, p, q, check_request_own csr cn g m, next_serial, made) refl

  -- After pkiInit made a CA where there was none, a later request to /enroll with a name that is not
  -- empty, the ticket of this name, and a certificate request that carries the name and is signed with
  -- its own key is answered with status 200, the certificate and that of the CA. Assumed of the machine
  -- and of Go's packages: files are written, the random values of both runs are there, the signing
  -- succeeds, and the later run decodes what pkiInit encoded: the key as it was, the certificate as some
  -- certificate.
  pub pki_init-admits :
      (o : Setting) (w : Receiver) (later : Time) (files : Files)
      (cn csr_pem csr_der cert_der : Text) (csr : CertificateRequest)
      → file_exists ca_cert_file files ≡ false
      → is_empty cn ≡ false
      → c2.pem_decode csr_pem ≡ some csr_der
      → c2.parse_request csr_der ≡ some csr
      → csr.is_signed ≡ true
      → csr.common_name ≡ cn
      → c2.create_certificate
          (leaf_template later leaf_serial cn Usage.client_auth)
          ca
          csr.public_key
          key
        ≡ some cert_der
      → ((pki_init c now files).1 ≡ true)
        × (handle_enroll
              (record o { crypto = c2 })
              later
              (record w { files = (pki_init c now files).0 })
              (lit "POST")
              (some (record { cn = cn; ticket = ticket_for c2 salt cn; csr = csr_pem }))
            ≡ record {
              code = 200;
              answer = Answer.enrolled (c2.pem_encode (lit "CERTIFICATE") cert_der) ca_pem;
            })
  unfolding handle_enroll enroll issue valid_ticket lit text_eq
  pki_init-admits o w later files cn csr_pem csr_der cert_der csr new named p q g m made =
      let done = pki_init-done files new in
      rw done (
        refl,
        rw
            (
              enroll,
              salt_again files,
              named,
              text_eq_refl (ticket_for c2 salt cn),
              issue,
              sign_csr-made later files cn csr_pem csr_der cert_der csr p q g m made,
              lookup-ca_cert files,
            )
            refl,
      )
