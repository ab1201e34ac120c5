-- ===== src/Loggen/Draft.antt =====
-- tools/loggen/main.go: a message under construction: its lines, `add`, and noQueueReject.
use plv.Prelude.{ℕ, ◌+◌, ◌*◌, true, if◌then◌else◌, List, [], ◌∷◌, ◌++◌, String}
use plv.Go.Text.{Text, lit}
use plv.Go.Time.{Time}
use plv.Loggen.{Gen, ◌>>=◌, pure, sprintf, get_or, pick, sender, recipient, client, pid}
use plv.Loggen.Data.{MailKind, spam_sender_domains}

pub record Entry : Type 0 where
  pub ts : Time
  pub text : Text

-- The source of random numbers, the time of the next line, and the lines so far.
pub record Draft (R : Type 0) : Type 0 where
  pub rng : R
  pub cur : Time
  pub lines : List Entry

abbrev pub millisecond : ℕ
millisecond = 1_000_000

unfoldable pub draw {ℓ} : {R : Type 0} {A : Type ℓ} → (R → A × R) → Draft R → A × Draft R
draw m d = let (a, r) = m d.rng in (a, record d { rng = r })

module _ {R F : Type 0} (g : Gen R F) where
  unfoldable pub add : Text → Draft R → Unit {0} × Draft R
  add text d =
      let (n, r) = g.int_n 900 d.rng in
      (
        tt,
        record {
          rng = r;
          cur = d.cur + (40 + n) * millisecond;
          lines =
              d.lines
              ++ (record { ts = d.cur; text = g.stamp d.cur ++ (lit " mailgw " ++ text) }) ∷ [];
        },
      )

  unfoldable pub addf : String → List Text → Draft R → Unit {0} × Draft R
  addf format args = add (sprintf format args)

  -- A line that is written with this probability.
  unfoldable pub add_sometimes :
      String → (Draft R → Unit {0} × Draft R) → Draft R → Unit {0} × Draft R
  add_sometimes chance line d =
      let (f, r) = g.float64 d.rng in
      if g.less f (g.constant chance)
      then line (record d { rng = r })
      else (tt, record d { rng = r })

  -- A constant and a multiple of a random number, to n digits.
  unfoldable pub random_float : ℕ → String → String → R → Text × R
  random_float n base factor = do
    f ← g.float64
    pure (g.format n (g.add (g.constant base) (g.mul (g.constant factor) f)))

  unfoldable pub plain_float : ℕ → R → Text × R
  plain_float n = do f ← g.float64; pure (g.format n f)

  unfoldable pub shifted_float : ℕ → String → R → Text × R
  shifted_float n base = do f ← g.float64; pure (g.format n (g.add (g.constant base) f))

  unfoldable pub reject_of : ℕ → Text → Text → Text → Text × Text
  reject_of i ip from to =
      get_or ([], [])
        ((
          lit "RCPT",
          sprintf
              "554 5.7.1 Service unavailable; Client host [%s] blocked using zen.spamhaus.example"
              (ip ∷ []),
        )
          ∷ (
            lit "RCPT",
            sprintf
                "550 5.1.1 <%s>: Recipient address rejected: User unknown in virtual mailbox table"
                (to ∷ []),
          )
          ∷ (
            lit "RCPT",
            sprintf "450 4.1.8 <%s>: Sender address rejected: Domain not found" (from ∷ []),
          )
          ∷ (lit "RCPT", sprintf "554 5.7.1 <%s>: Relay access denied" (to ∷ []))
          ∷ (lit "MAIL", lit "451 4.7.1 Greylisted, please try again later")
          ∷ [])
        i

  unfoldable pub unknown_sometimes : Text → R → Text × R
  unknown_sometimes host = do
    f ← g.float64
    pure (if g.less f (g.constant "0.5") then lit "unknown" else host)

  unfoldable pub no_queue_reject : Draft R → Unit {0} × Draft R
  no_queue_reject = do
    domain ← draw (pick g spam_sender_domains)
    found ← draw (client g domain MailKind.spam)
    from ← draw (sender g true)
    to ← draw (recipient g)
    host ← draw (unknown_sometimes found.0)
    i ← draw (g.int_n 5)
    p ← draw (pid g)
    let r = reject_of i found.1 from.0 to
    addf
        "postfix/smtpd[%d]: NOQUEUE: reject: %s from %s[%s]: %s; from=<%s> to=<%s> proto=ESMTP helo=<%s>"
        (p ∷ r.0 ∷ host ∷ found.1 ∷ r.1 ∷ from.0 ∷ to ∷ found.0 ∷ [])
