-- ===== src/Wizard/Ready.antt =====
-- What a node has once the wizard has ended without an error.
use plv.Prelude.{
  ◌≡◌, refl, sym, ap, ◌∙◌, Bool, true, false, if◌then◌else◌, List, [], ◌∷◌, Option, none, some,
  Bool-cases, Option-cases, inl, inr, arith,
}
use mathlib.Core.Path.{subst}
use plv.Go.Text.{Text, lit, text_eq, elem, to_lower}
use plv.Go.Map.{lookup, insert, lookup-insert, lookup-insert_self}
use plv.Go.Time.{Time}
use plv.Pki.{
  Crypto, Files, ca_cert_file, cert_file, key_file, file_exists, pki_ready, and_write, write_cert,
  write_key, load_cert, load_ca, new_server, pki_server,
}
use plv.Receiver.Node.{enroll_node-ready}
use plv.Wizard.{
  Reach, prompt, init_ca, issue_server, wizard_receiver, ask_ticket, with_ca, wizard_forwarder,
  run_wizard,
}

-- Without a certificate of the CA there is no server certificate.
pki_server_unready :
    (c : Crypto) (now : Time) (h : Text) (hs : List Text) (files : Files)
    → lookup ca_cert_file files ≡ none
    → (pki_server c now h hs files).1 ≡ false
unfolding pki_server new_server load_ca load_cert
pki_server_unready c now h hs files e = rw (pki_server, new_server, load_ca, load_cert, e) refl

exists_of_lookup :
    (name t : Text) (files : Files) → lookup name files ≡ some t → file_exists name files ≡ true
unfolding file_exists
exists_of_lookup name t files e = rw (file_exists, e) refl

abbrev IsFine : Files × Bool → Type 0
IsFine w = w.1 ≡ true → pki_ready w.0 ≡ true

guarded :
    (bad : Bool) (files : Files) (w : Files × Bool)
    → IsFine w
    → IsFine (if bad then (files, false) else w)
guarded true files w fine h = absurd (ground arith)
guarded false files w fine h = fine h

module _ (c : Crypto)
    (writes : (name content : Text) (files : Files)
      → c.write name content files ≡ (insert name content files, true)) where
  served : Text → Text → Files → Files
  served leaf key files = insert key_file key (insert cert_file leaf files)

  served_ready :
      (leaf key ca : Text) (files : Files)
      → lookup ca_cert_file files ≡ some ca
      → pki_ready (served leaf key files) ≡ true
  unfolding served pki_ready text_eq lit
  served_ready leaf key ca files e =
      let on_top = lookup-insert_self key_file key (insert cert_file leaf files) in
      let below =
        lookup-insert key_file cert_file key (insert cert_file leaf files)
        ∙ lookup-insert_self cert_file leaf files in
      let kept =
        lookup-insert key_file ca_cert_file key (insert cert_file leaf files)
        ∙ lookup-insert cert_file ca_cert_file leaf files
        ∙ e in
      rw
        (
          pki_ready,
          exists_of_lookup _ _ _ on_top,
          exists_of_lookup _ _ _ below,
          exists_of_lookup _ _ _ kept,
        )
        refl

  -- The two files of a server are written, or the key has no form to be written in.
  write_served :
      (der key ca : Text) (files : Files)
      → lookup ca_cert_file files ≡ some ca
      → (write_key c key_file key (write_cert c cert_file der (files, true))).1 ≡ true
      → pki_ready (write_key c key_file key (write_cert c cert_file der (files, true))).0 ≡ true
  unfolding write_key write_cert and_write served
  write_served der key ca files e h = elim (Option-cases (c.marshal_key key)) [
    | inl n ↦ absurd (let bad : false ≡ true = rw (write_key, n) at h in ground arith)
    | inr (b, n) ↦
        let leaf = c.pem_encode (lit "CERTIFICATE") der in
        let both =
          ap (and_write c key_file (c.pem_encode (lit "EC PRIVATE KEY") b))
            (writes cert_file leaf files)
          ∙ writes key_file (c.pem_encode (lit "EC PRIVATE KEY") b) (insert cert_file leaf files) in
        rw (write_key, n)
          (subst (λ w. pki_ready w.0 ≡ true) (sym both) (served_ready leaf _ ca files e))
  ]

  pki_server-ready :
      (now : Time) (h : Text) (hs : List Text) (files : Files)
      → (pki_server c now h hs files).1 ≡ true
      → pki_ready (pki_server c now h hs files).0 ≡ true
  unfolding pki_server
  pki_server-ready now h hs files done = elim (Option-cases (lookup ca_cert_file files)) [
    | inl n ↦ absurd (let bad = pki_server_unready c now h hs files n in ground arith)
    | inr (ca, e) ↦ elim (Option-cases (new_server c now h hs files)) [
      | inl n ↦ absurd (let bad : false ≡ true = rw (pki_server, n) at done in ground arith)
      | inr (made, n) ↦
          rw (pki_server, n) (write_served made.1 made.0 ca files e (rw (pki_server, n) at done))
    ]
  ]

  issue_server-ready :
      (now : Time) (hosts : List Text) (w : Files × Bool)
      → (issue_server c now hosts w).1 ≡ true
      → pki_ready (issue_server c now hosts w).0 ≡ true
  unfolding issue_server
  issue_server-ready now hosts (files, false) done = absurd (ground arith)
  issue_server-ready now [] (files, true) done = absurd (ground arith)
  issue_server-ready now (h ∷ hs) (files, true) done = pki_server-ready now h hs files done

  ask_ticket-ready :
      (net : Reach) (to ca_pem : Text) (input : List Text) (files : Files)
      → IsFine (ask_ticket c net to ca_pem input files)
  unfolding ask_ticket
  ask_ticket-ready net to ca_pem input files =
      guarded _ files _ (guarded _ files _ (enroll_node-ready c writes _ _ _ _ ca_pem files))

  with_ca-ready :
      (net : Reach) (to : Text) (ca : Option Text) (input : List Text) (files : Files)
      → IsFine (with_ca c net to ca input files)
  unfolding with_ca
  with_ca-ready net to none input files h = absurd (ground arith)
  with_ca-ready net to (some ca) input files h = ask_ticket-ready net to ca input files h

  wizard_forwarder-ready :
      (net : Reach) (input : List Text) (files : Files)
      → IsFine (wizard_forwarder c net input files)
  unfolding wizard_forwarder
  wizard_forwarder-ready net input files =
      guarded _ files _ (guarded _ files _ (with_ca-ready net _ _ _ files))

-- Where writing a file succeeds, a run of the wizard that ends without an error leaves all three files
-- that the distributed mode asks for, in either role and whatever is typed.
pub run_wizard-ready :
    (c1 c2 : Crypto)
    → ((name content : Text) (files : Files)
        → c1.write name content files ≡ (insert name content files, true))
    → ((name content : Text) (files : Files)
        → c2.write name content files ≡ (insert name content files, true))
    → (now : Time) (net : Reach) (input : List Text) (files : Files)
    → (run_wizard c1 c2 now net input files).1 ≡ true
    → pki_ready (run_wizard c1 c2 now net input files).0 ≡ true
unfolding run_wizard wizard_receiver
run_wizard-ready c1 c2 w1 w2 now net input files =
    let role = to_lower (prompt [] input).0 in
    elim (Bool-cases (elem role (lit "r" ∷ lit "receiver" ∷ []))) [
      | inl e ↦ rw e (issue_server-ready c2 w2 now _ (init_ca c1 now files))
      | inr e ↦ rw e (elim (Bool-cases (elem role (lit "f" ∷ lit "forwarder" ∷ []))) [
        | inl f ↦ rw f (wizard_forwarder-ready c1 w1 net (prompt [] input).1 files)
        | inr f ↦ rw f (λ h. absurd (ground arith))
      ])
    ]
