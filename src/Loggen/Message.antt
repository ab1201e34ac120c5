-- ===== src/Loggen/Message.antt =====
-- tools/loggen/main.go: the lines of one message.
use plv.Prelude.{◌+◌, if◌then◌else◌, List, [], ◌∷◌, String}
use plv.Go.Text.{Text, is_empty}
use plv.Go.Time.Format.{decimal}
use plv.Loggen.{
  Gen, ◌>>=◌, ◌>>◌, pure, sprintf, is_junk, pick, sender, recipient, subject, client, score, pid,
  hex, new_queue_id, mailstore_of,
}
use plv.Loggen.Data.{
  MailKind, delivered, spam, no_queue, bounced, deferred, virus, blocked, Mailstore, spam_thr,
  sa_ham_hits, sa_spam_hits, accept_rules, spam_rules, virus_rules, block_rules,
}
use plv.Loggen.Draft.{
  Draft, draw, addf, add_sometimes, random_float, shifted_float, plain_float, no_queue_reject,
}

-- What the head of a message fixes for its other lines.
pub record Facts : Type 0 where
  pub kind : MailKind
  pub q1 : Text
  pub sid : Text
  pub from : Text
  pub to : Text
  pub size : Text
  pub qmgr_pid : Text
  pub lmtp_pid : Text
  pub filter_pid : Text

module _ {R F : Type 0} (g : Gen R F) where
  -- The inbound flow up to the filter.
  unfoldable pub head : MailKind → Draft R → Facts × Draft R
  head k d0 =
      let ts = d0.cur in
      (do
        q1 ← draw (new_queue_id g)
        sid ← draw (hex g 16)
        from ← draw (sender g (is_junk k))
        to ← draw (recipient g)
        subj ← draw (subject g k)
        n ← draw (g.int_n 900_000)
        h ← draw (hex g 8)
        let size = decimal (1024 + n)
        let msg_id = sprintf "<%s.%s@%s>" (g.stamp14 ts ∷ h ∷ from.1 ∷ [])
        host ← draw (client g from.1 k)
        smtpd_pid ← draw (pid g)
        cleanup_pid ← draw (pid g)
        qmgr_pid ← draw (pid g)
        lmtp_pid ← draw (pid g)
        filter_pid ← draw (pid g)
        addf g "postfix/smtpd[%d]: connect from %s[%s]" (smtpd_pid ∷ host.0 ∷ host.1 ∷ [])
        addf g "postfix/smtpd[%d]: %s: client=%s[%s]" (smtpd_pid ∷ q1 ∷ host.0 ∷ host.1 ∷ [])
        addf g "postfix/cleanup[%d]: %s: message-id=%s" (cleanup_pid ∷ q1 ∷ msg_id ∷ [])
        add_sometimes g "0.9" (
            addf g
              "postfix/cleanup[%d]: %s: warning: header Subject: %s from %s[%s]; from=<%s> to=<%s> proto=ESMTP"
              (cleanup_pid ∷ q1 ∷ subj ∷ host.0 ∷ host.1 ∷ from.0 ∷ to ∷ []))
        addf g "postfix/qmgr[%d]: %s: from=<%s>, size=%d, nrcpt=1 (queue active)"
            (qmgr_pid ∷ q1 ∷ from.0 ∷ size ∷ [])
        addf g "pmg-smtp-filter[%d]: %s: new mail message-id=%s" (filter_pid ∷ sid ∷ msg_id ∷ [])
        pure (record {
          kind = k;
          q1 = q1;
          sid = sid;
          from = from.0;
          to = to;
          size = size;
          qmgr_pid = qmgr_pid;
          lmtp_pid = lmtp_pid;
          filter_pid = filter_pid;
        }))
        d0

  unfoldable pub add_score : Facts → Text → Text → Text → Text → Draft R → Unit {0} × Draft R
  add_score f value time bayes hits =
      addf g "pmg-smtp-filter[%d]: %s: SA score=%s/%d time=%.3f bayes=%.2f hits=%s"
        (f.filter_pid ∷ f.sid ∷ value ∷ decimal spam_thr ∷ time ∷ bayes ∷ hits ∷ [])

  -- The onward queue id of mail that the filter accepts.
  unfoldable pub accepted : Facts → Draft R → Text × Draft R
  accepted f = do
    value ← draw (score g "0.1" "4.6")
    time ← draw (shifted_float g 3 "0.2")
    bayes ← draw (plain_float g 2)
    hits ← draw (pick g sa_ham_hits)
    add_score f value time bayes hits
    onward ← draw (new_queue_id g)
    rule ← draw (pick g accept_rules)
    addf g "pmg-smtp-filter[%d]: %s: accept mail to <%s> (%s) (rule: %s)"
        (f.filter_pid ∷ f.sid ∷ f.to ∷ onward ∷ rule ∷ [])
    pure onward

  unfoldable pub quarantine_lines : Facts → String → List String → Draft R → Text × Draft R
  quarantine_lines f format rules = do
    h ← draw (hex g 10)
    rule ← draw (pick g rules)
    addf g format (f.filter_pid ∷ f.sid ∷ f.to ∷ h ∷ rule ∷ [])
    pure []

  unfoldable pub scored_spam : Facts → Draft R → Text × Draft R
  scored_spam f = do
    value ← draw (score g "5.0" "22.0")
    time ← draw (shifted_float g 3 "0.3")
    bayes ← draw (random_float g 2 "0.9" "0.1")
    hits ← draw (pick g sa_spam_hits)
    add_score f value time bayes hits
    quarantine_lines f
        "pmg-smtp-filter[%d]: %s: moved mail for <%s> to spam quarantine - %s (rule: %s)" spam_rules

  unfoldable pub filter_blocked : Facts → Draft R → Text × Draft R
  filter_blocked f = do
    rule ← draw (pick g block_rules)
    addf g "pmg-smtp-filter[%d]: %s: block mail to <%s> (rule: %s)"
        (f.filter_pid ∷ f.sid ∷ f.to ∷ rule ∷ [])
    pure []

  -- The filter's verdict, and the onward queue id, which is empty where there is none.
  unfoldable pub verdict : MailKind → Facts → Draft R → Text × Draft R
  verdict delivered f = accepted f
  verdict bounced f = accepted f
  verdict deferred f = accepted f
  verdict spam f = scored_spam f
  verdict virus f =
      quarantine_lines f
        "pmg-smtp-filter[%d]: %s: moved mail for <%s> to virus quarantine - %s (rule: %s)"
        virus_rules
  verdict blocked f = filter_blocked f
  verdict no_queue f = pure []

  unfoldable pub tls_line : Draft R → Unit {0} × Draft R
  tls_line = do
    ms ← draw (mailstore_of g)
    p ← draw (pid g)
    addf g
        "postfix/smtp[%d]: Trusted TLS connection established to %s[%s]:%d: TLSv1.3 with cipher TLS_AES_256_GCM_SHA384 (256/256 bits) key-exchange X25519 server-signature ECDSA"
        (p ∷ ms.host ∷ ms.ip ∷ decimal ms.port ∷ [])

  unfoldable pub hand_off : Facts → Draft R → Unit {0} × Draft R
  hand_off f = do
    delay ← draw (random_float g 1 "1.0" "5")
    addf g
        "postfix/lmtp[%d]: %s: to=<%s>, relay=127.0.0.1[127.0.0.1]:10024, delay=%.1f, dsn=2.5.0, status=sent (250 2.5.0 OK (%s))"
        (f.lmtp_pid ∷ f.q1 ∷ f.to ∷ delay ∷ f.sid ∷ [])

  unfoldable pub removed : Text → Text → Draft R → Unit {0} × Draft R
  removed p q = addf g "postfix/qmgr[%d]: %s: removed" (p ∷ q ∷ [])

  unfoldable pub delivered_leg :
      Facts → Text → Text → Text → Mailstore → Draft R → Unit {0} × Draft R
  delivered_leg f onward qmgr smtp ms = do
    delay ← draw (random_float g 1 "0.5" "3")
    last ← draw (plain_float g 1)
    next ← draw (new_queue_id g)
    addf g
        "postfix/smtp[%d]: %s: to=<%s>, relay=%s[%s]:%d, delay=%.1f, delays=0.1/0/0.3/%.1f, dsn=2.0.0, status=sent (250 2.0.0 Ok: queued as %s)"
        (smtp ∷ onward ∷ f.to ∷ ms.host ∷ ms.ip ∷ decimal ms.port ∷ delay ∷ last ∷ next ∷ [])
    removed qmgr onward

  unfoldable pub bounced_leg : Facts → Text → Text → Text → Mailstore → Draft R → Unit {0} × Draft R
  bounced_leg f onward qmgr smtp ms = do
    delay ← draw (random_float g 1 "0.5" "3")
    addf g
        "postfix/smtp[%d]: %s: to=<%s>, relay=%s[%s]:%d, delay=%.1f, dsn=5.1.1, status=bounced (host %s[%s] said: 550 5.1.1 <%s>: Recipient address rejected: User unknown)"
        (smtp
          ∷ onward
          ∷ f.to
          ∷ ms.host
          ∷ ms.ip
          ∷ decimal ms.port
          ∷ delay
          ∷ ms.host
          ∷ ms.ip
          ∷ f.to
          ∷ [])
    removed qmgr onward

  unfoldable pub deferred_leg : Facts → Text → Text → Mailstore → Draft R → Unit {0} × Draft R
  deferred_leg f onward smtp ms = do
    delay ← draw (random_float g 1 "30" "30")
    addf g
        "postfix/smtp[%d]: %s: to=<%s>, relay=%s[%s]:%d, delay=%.1f, dsn=4.4.1, status=deferred (connect to %s[%s]:%d: Connection timed out)"
        (smtp
          ∷ onward
          ∷ f.to
          ∷ ms.host
          ∷ ms.ip
          ∷ decimal ms.port
          ∷ delay
          ∷ ms.host
          ∷ ms.ip
          ∷ decimal ms.port
          ∷ [])

  unfoldable pub delivery :
      MailKind → Facts → Text → Text → Text → Mailstore → Draft R → Unit {0} × Draft R
  delivery delivered f onward qmgr smtp ms = delivered_leg f onward qmgr smtp ms
  delivery bounced f onward qmgr smtp ms = bounced_leg f onward qmgr smtp ms
  delivery deferred f onward qmgr smtp ms = deferred_leg f onward smtp ms
  delivery spam f onward qmgr smtp ms = pure tt
  delivery no_queue f onward qmgr smtp ms = pure tt
  delivery virus f onward qmgr smtp ms = pure tt
  delivery blocked f onward qmgr smtp ms = pure tt

  -- The leg of accepted mail out of the filter.
  unfoldable pub outbound : Facts → Text → Draft R → Unit {0} × Draft R
  outbound f onward = do
    ms ← draw (mailstore_of g)
    qmgr ← draw (pid g)
    smtp ← draw (pid g)
    addf g "postfix/qmgr[%d]: %s: from=<%s>, size=%d, nrcpt=1 (queue active)"
        (qmgr ∷ onward ∷ f.from ∷ f.size ∷ [])
    delivery f.kind f onward qmgr smtp ms

  unfoldable pub filtered_message : MailKind → Draft R → Unit {0} × Draft R
  filtered_message k = do
    f ← head k
    onward ← verdict k f
    add_sometimes g "0.55" tls_line
    hand_off f
    removed f.qmgr_pid f.q1
    if is_empty onward then pure tt else outbound f onward

  unfoldable pub message_lines : MailKind → Draft R → Unit {0} × Draft R
  message_lines delivered = filtered_message delivered
  message_lines spam = filtered_message spam
  message_lines no_queue = no_queue_reject g
  message_lines bounced = filtered_message bounced
  message_lines deferred = filtered_message deferred
  message_lines virus = filtered_message virus
  message_lines blocked = filtered_message blocked
