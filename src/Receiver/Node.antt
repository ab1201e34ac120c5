-- ===== src/Receiver/Node.antt =====
-- enrollNode of forward.go: a node asks the receiver for its certificate and keeps what it gets.
use plv.Prelude.{
  ◌≡◌, ◌⊎◌, refl, ◌∙◌, sym, ap, Bool, true, false, not, ◌==◌, [], Option, none, some, arith,
  if◌then◌else◌, if_true, if_false, Bool-cases, Option-cases, inl, inr,
}
use mathlib.Core.Path.{subst}
use plv.Go.Text.{Text, lit, text_eq}
use plv.Go.Map.{lookup, insert, lookup-insert, lookup-insert_self}
use plv.Pki.{
  Crypto, Files, ca_cert_file, cert_file, key_file, file_exists, pki_ready, and_write, generate_csr,
}
use plv.Receiver.{fault, enrolled, ack, EnrollRequest, Reply, Answer}

-- The two fields that are decoded of a reply; both are empty in an error.
unfoldable pub answer_cert : Answer → Text
answer_cert (ack n m) = []
answer_cert (enrolled cert ca) = cert
answer_cert (fault f) = []

-- What a reply with status 200 leaves: the certificate, the private key and the CA's certificate.
unfoldable pub keep_reply : Crypto → Text → Text → Reply → Files → Files × Bool
keep_reply c key_pem ca_pem reply files =
    if reply.code == 200
    then and_write c ca_cert_file ca_pem (
        and_write c key_file key_pem
          (and_write c cert_file (answer_cert reply.answer) (files, c.mkdir)))
    else (files, false)

-- `is_pool` says that the CA's certificate can be read, and `post` is the request to /enroll: none
-- where it fails.
unfoldable pub enroll_node :
    Crypto → Bool → (EnrollRequest → Option Reply) → Text → Text → Text → Files → Files × Bool
enroll_node c is_pool post cn ticket ca_pem files =
    if not is_pool then (files, false) else elim (generate_csr c cn) [
      | none ↦ (files, false)
      | some made ↦ elim (post (record { cn = cn; ticket = ticket; csr = made.0 })) [
        | none ↦ (files, false)
        | some reply ↦ keep_reply c made.1 ca_pem reply files
      ]
    ]

exists_at :
    (name t : Text) (files : Files) → lookup name files ≡ some t → file_exists name files ≡ true
unfolding file_exists
exists_at name t files e = rw (file_exists, e) refl

module _ (c : Crypto)
    (writes : (name content : Text) (files : Files)
      → c.write name content files ≡ (insert name content files, true)) where
  abbrev kept : Text → Text → Text → Files → Files
  kept key_pem ca_pem cert files =
      insert ca_cert_file ca_pem (insert key_file key_pem (insert cert_file cert files))

  kept_ready :
      (key_pem ca_pem cert : Text) (files : Files)
      → pki_ready (kept key_pem ca_pem cert files) ≡ true
  unfolding pki_ready file_exists text_eq lit
  kept_ready key_pem ca_pem cert files =
      let own =
        lookup-insert_self ca_cert_file ca_pem
          (insert key_file key_pem (insert cert_file cert files)) in
      let key =
        lookup-insert ca_cert_file key_file ca_pem
          (insert key_file key_pem (insert cert_file cert files))
        ∙ lookup-insert_self key_file key_pem (insert cert_file cert files) in
      let leaf =
        lookup-insert ca_cert_file cert_file ca_pem
          (insert key_file key_pem (insert cert_file cert files))
        ∙ lookup-insert key_file cert_file key_pem (insert cert_file cert files)
        ∙ lookup-insert_self cert_file cert files in
      rw (pki_ready, exists_at _ _ _ own, exists_at _ _ _ leaf, exists_at _ _ _ key) refl

  written :
      (key_pem ca_pem cert : Text) (files : Files)
      → and_write c ca_cert_file ca_pem
          (and_write c key_file key_pem (and_write c cert_file cert (files, true)))
        ≡ (kept key_pem ca_pem cert files, true)
  unfolding and_write
  written key_pem ca_pem cert files =
      ap (λ w. and_write c ca_cert_file ca_pem (and_write c key_file key_pem w))
        (writes cert_file cert files)
      ∙ ap (and_write c ca_cert_file ca_pem) (writes key_file key_pem _)
      ∙ writes ca_cert_file ca_pem _

  -- How an enrolment ends: with an error before anything was written, or with the three files.
  abbrev Outcome : Text → Files → Files × Bool → Type 0
  Outcome ca_pem files w =
      (w ≡ (files, false))
      ⊎ ((key : Text) × (cert : Text) × (w ≡ (kept key ca_pem cert files, true)))

  ready_if :
      (ca_pem : Text) (files : Files) (w : Files × Bool)
      → Outcome ca_pem files w
      → w.1 ≡ true
      → pki_ready w.0 ≡ true
  ready_if ca_pem files w (inl q) h =
      let bad : false ≡ true = subst (λ z. z.1 ≡ true) q h in absurd (ground arith)
  ready_if ca_pem files w (inr (key, cert, q)) h =
      subst (λ z. pki_ready z.0 ≡ true) (sym q) (kept_ready key ca_pem cert files)

  keep_reply_cases :
      (key_pem ca_pem : Text) (reply : Reply) (files : Files)
      → Outcome ca_pem files (keep_reply c key_pem ca_pem reply files)
  unfolding keep_reply and_write
  keep_reply_cases key_pem ca_pem reply files = elim (Bool-cases (reply.code == 200)) [
    | inr e ↦ inl (if_false (reply.code == 200) _ _ e)
    | inl e ↦
        let chain : Bool → Files × Bool = λ b. and_write c ca_cert_file ca_pem (
          and_write c key_file key_pem
            (and_write c cert_file (answer_cert reply.answer) (files, b))) in
        elim (Bool-cases c.mkdir) [
          | inl m ↦ inr (
            key_pem,
            answer_cert reply.answer,
            if_true (reply.code == 200) (chain c.mkdir) _ e
                ∙ ap chain m
                ∙ written key_pem ca_pem (answer_cert reply.answer) files,
          )
          | inr m ↦ inl (if_true (reply.code == 200) (chain c.mkdir) _ e ∙ ap chain m)
        ]
  ]

  enroll_node_cases :
      (is_pool : Bool) (post : EnrollRequest → Option Reply) (cn ticket ca_pem : Text)
      (files : Files)
      → Outcome ca_pem files (enroll_node c is_pool post cn ticket ca_pem files)
  unfolding enroll_node
  enroll_node_cases false post cn ticket ca_pem files = inl refl
  enroll_node_cases true post cn ticket ca_pem files = elim (Option-cases (generate_csr c cn)) [
    | inl n ↦ rw n (inl refl)
    | inr (made, e) ↦
        elim (Option-cases (post (record { cn = cn; ticket = ticket; csr = made.0 }))) [
          | inl n ↦ rw (e, n) (inl refl)
          | inr (reply, p) ↦ rw (e, p) (keep_reply_cases made.1 ca_pem reply files)
        ]
  ]

  pub enroll_node-ready :
      (is_pool : Bool) (post : EnrollRequest → Option Reply) (cn ticket ca_pem : Text)
      (files : Files)
      → (enroll_node c is_pool post cn ticket ca_pem files).1 ≡ true
      → pki_ready (enroll_node c is_pool post cn ticket ca_pem files).0 ≡ true
  enroll_node-ready is_pool post cn ticket ca_pem files h =
      ready_if ca_pem files _ (enroll_node_cases is_pool post cn ticket ca_pem files) h
