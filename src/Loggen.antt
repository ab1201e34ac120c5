-- ===== src/Loggen.antt =====
-- tools/loggen/main.go: what the generator of synthetic logs draws. What Go gives it is the record Gen,
-- over the states R of the source of random numbers and the values F of float64.
pub mod Data
pub mod Draft
pub mod Message
pub mod Run
pub mod Weights
use plv.Prelude.{
  ℤ, ℕ, zero, suc, ◌+◌, ◌-◌, Bool, true, false, ltb, leb, ◌==◌, if◌then◌else◌, List, [], ◌∷◌, ◌++◌,
  none, some, length, get_elem?, map, String,
}
use plv.Go.Text.{Text, lit}
use plv.Go.Time.{Time}
use plv.Go.Time.Format.{decimal}
use plv.Loggen.Data.{
  MailKind, LogFile, texts, Mailstore, mailstore, mailstores, kind_weights, hour_weights,
  local_domains, local_users, legit_sender_domains, legit_sender_users, spam_sender_domains,
  spam_sender_users, legit_subjects, spam_subjects, delivered, spam, no_queue, bounced, deferred,
  virus, blocked,
}

-- The source of random numbers, the arithmetic of float64, and the calendar of the time zone.
pub record Gen (R F : Type 0) : Type 0 where
  -- IntN and Float64
  pub int_n : ℕ → R → ℕ × R
  pub float64 : R → F × R
  -- a constant by its text, a conversion of an int, the operations, the conversion to an int, and the
  -- verb %.nf
  pub constant : String → F
  pub of_int : ℕ → F
  pub add : F → F → F
  pub sub : F → F → F
  pub mul : F → F → F
  pub less : F → F → Bool
  pub truncate : F → ℕ
  pub format : ℕ → F → Text
  -- Format with the layout of the logs, and with that of a message id
  pub stamp : Time → Text
  pub stamp14 : Time → Text
  -- AddDate of days, whether it is Saturday or Sunday, and Date of the same day
  pub now : Time
  pub add_days : Time → ℤ → Time
  pub is_weekend : Time → Bool
  pub clock_on : Time → ℕ → ℕ → ℕ → ℕ → Time

infixl 5 ◌>>=◌ ◌>>◌
abbrev pub ◌>>=◌ {ℓ μ ν} :
    {S : Type ℓ} {A : Type μ} {B : Type ν} → (S → A × S) → (A → S → B × S) → S → B × S
(m >>= f) s = f (m s).0 (m s).1

abbrev pub ◌>>◌ {ℓ μ ν} :
    {S : Type ℓ} {A : Type μ} {B : Type ν} → (S → A × S) → (S → B × S) → S → B × S
(m >> k) s = k (m s).1

abbrev pub pure {ℓ μ} : {S : Type ℓ} {A : Type μ} → A → S → A × S
pure a s = (a, s)

-- Sprintf with arguments that are texts already: each verb, from % to a letter, takes the next one.
unfoldable pub sprintf_from : Bool → Text → List Text → Text
sprintf_from verb [] args = []
sprintf_from true (c ∷ s) [] = []
sprintf_from true (c ∷ s) (a ∷ args) = elim (leb b'a' c) [
  | true ↦ a ++ sprintf_from false s args
  | false ↦ sprintf_from true s (a ∷ args)
]
sprintf_from false (c ∷ s) args = elim (c == b'%') [
  | true ↦ sprintf_from true s args
  | false ↦ c ∷ sprintf_from false s args
]

unfoldable pub sprintf : String → List Text → Text
sprintf format args = sprintf_from false (lit format) args

unfoldable pub get_or {ℓ} : {A : Type ℓ} → A → List A → ℕ → A
get_or d l i = elim (get_elem? l i) [ none ↦ d | some a ↦ a ]

unfoldable pub sum : List ℕ → ℕ
sum [] = 0
sum (w ∷ ws) = w + sum ws

-- The loop of pickKind and weightedHour: the value of the first weight that `n` is below.
unfoldable pub weighted {ℓ} : {A : Type ℓ} → A → List (A × ℕ) → ℕ → A
weighted d [] n = d
weighted d ((a, w) ∷ ws) n = let rest = weighted d ws (n - w) in if ltb n w then a else rest

unfoldable pub numbered : ℕ → List ℕ → List (ℕ × ℕ)
numbered h [] = []
numbered h (w ∷ ws) = (h, w) ∷ numbered (suc h) ws

unfoldable pub total_weight {ℓ} : {A : Type ℓ} → List (A × ℕ) → ℕ
total_weight ws = sum (map (λ w. w.1) ws)

unfoldable pub file_from : ℕ → ℕ → List LogFile → ℕ
file_from age i [] = i - 1
file_from age i (f ∷ fs) =
    let rest = file_from age (suc i) fs in if leb age f.max_days then i else rest

unfoldable pub is_junk : MailKind → Bool
is_junk delivered = false
is_junk spam = true
is_junk no_queue = false
is_junk bounced = false
is_junk deferred = false
is_junk virus = true
is_junk blocked = true

module _ {R F : Type 0} (g : Gen R F) where
  unfoldable pub pick : List String → R → Text × R
  pick l = do i ← g.int_n (length l); pure (get_or [] (texts l) i)

  unfoldable pub pick_kind : R → MailKind × R
  pick_kind = do
    n ← g.int_n (total_weight kind_weights)
    pure (weighted MailKind.delivered kind_weights n)

  unfoldable pub weighted_hour : R → ℕ × R
  weighted_hour = do n ← g.int_n (sum hour_weights); pure (weighted 12 (numbered 0 hour_weights) n)

  -- The address and its domain.
  unfoldable pub sender : Bool → R → (Text × Text) × R
  sender junk = do
    domain ← pick (if junk then spam_sender_domains else legit_sender_domains)
    user ← pick (if junk then spam_sender_users else legit_sender_users)
    pure (user ++ (lit "@" ++ domain), domain)

  unfoldable pub recipient : R → Text × R
  recipient = do
    user ← pick local_users
    domain ← pick local_domains
    pure (user ++ (lit "@" ++ domain))

  unfoldable pub subject : MailKind → R → Text × R
  subject k = pick (if is_junk k then spam_subjects else legit_subjects)

  unfoldable pub host_or_unknown : Text → Bool → R → Text × R
  host_or_unknown domain false r = (lit "mail." ++ domain, r)
  host_or_unknown domain true r =
      let (f, r1) = g.float64 r in
      (if g.less f (g.constant "0.5") then lit "unknown" else lit "mail." ++ domain, r1)

  -- The host and its address.
  unfoldable pub client : Text → MailKind → R → (Text × Text) × R
  client domain k = do
    i ← g.int_n 3
    n ← g.int_n 253
    host ← host_or_unknown domain (is_junk k)
    pure (
      host,
      sprintf "%s.%d" (
          get_or [] (texts ("192.0.2" ∷ "198.51.100" ∷ "203.0.113" ∷ [])) i ∷ decimal (1 + n) ∷ []),
    )

  unfoldable pub score : String → String → R → Text × R
  score lo hi = do
    f ← g.float64
    pure (g.format 1 (g.add (g.constant lo) (g.mul (g.sub (g.constant hi) (g.constant lo)) f)))

  unfoldable pub pid : R → Text × R
  pid = do n ← g.int_n 29_000; pure (decimal (600 + n))

  unfoldable pub hex : ℕ → R → Text × R
  hex zero = pure []
  hex (suc n) = do
    d ← g.int_n 16
    rest ← hex n
    pure (get_or b'0' (lit "0123456789ABCDEF") d ∷ rest)

  unfoldable pub new_queue_id : R → Text × R
  new_queue_id = hex 10

  unfoldable pub mailstore_of : R → Mailstore × R
  mailstore_of = do i ← g.int_n (length mailstores); pure (get_or (mailstore "" "" 0) mailstores i)
