-- ===== src/Loggen/Data.antt =====
-- tools/loggen/main.go: the files, the pools of synthetic data, the kinds of messages and their weights.
use plv.Prelude.{ℕ, Bool, true, false, List, [], ◌∷◌, String, map}
use plv.Go.Text.{Text, lit}

pub data MailKind : Type 0 where
  delivered spam no_queue bounced deferred virus blocked : MailKind

pub record LogFile : Type 0 where
  pub name : Text
  pub gzip : Bool
  pub max_days : ℕ

abbrev pub log_file : String → Bool → ℕ → LogFile
log_file name gzip max_days = record { name = lit name; gzip = gzip; max_days = max_days }

abbrev pub files : List LogFile
files =
    log_file "mail.log" false 6
    ∷ log_file "mail.log.1" false 13
    ∷ log_file "mail.log.2.gz" true 20
    ∷ log_file "mail.log.3.gz" true 27
    ∷ log_file "mail.log.4.gz" true 100_000
    ∷ []

unfoldable pub texts : List String → List Text
texts l = map lit l

abbrev pub local_domains : List String
local_domains = "example.com" ∷ "corp.example" ∷ "team.example.org" ∷ []

abbrev pub local_users : List String
local_users =
    "alice" ∷ "bob" ∷ "carol" ∷ "dave" ∷ "erin" ∷ "frank" ∷ "grace" ∷ "heidi" ∷ "support" ∷ "sales"
    ∷ "finance" ∷ "hr" ∷ "info" ∷ "accounts" ∷ "no-reply" ∷ "helpdesk" ∷ []

abbrev pub legit_sender_domains : List String
legit_sender_domains =
    "news.example.org" ∷ "billing.acme.example" ∷ "shop.widgets.example" ∷ "newsletter.example.net"
    ∷ "notifications.example.net" ∷ "mail.partner.example" ∷ "updates.vendor.example"
    ∷ "noreply.bank.example" ∷ "team.project.example" ∷ []

abbrev pub legit_sender_users : List String
legit_sender_users =
    "newsletter" ∷ "billing" ∷ "orders" ∷ "notifications" ∷ "no-reply" ∷ "support" ∷ "updates"
    ∷ "alerts" ∷ "statements" ∷ "team" ∷ "ci" ∷ []

abbrev pub spam_sender_domains : List String
spam_sender_domains =
    "promo.deals.example" ∷ "winner.lottery.example" ∷ "offers.junk.example"
    ∷ "pharma.cheap.example" ∷ "secure-verify.example" ∷ "crypto.invest.example" ∷ []

abbrev pub spam_sender_users : List String
spam_sender_users =
    "win" ∷ "promo" ∷ "offer" ∷ "verify" ∷ "account" ∷ "no-reply" ∷ "deals" ∷ "vip" ∷ []

abbrev pub legit_subjects : List String
legit_subjects =
    "Q2 budget review" ∷ "Lunch tomorrow?" ∷ "Re: project update" ∷ "Meeting notes"
    ∷ "Your order has shipped" ∷ "Invoice 4021 ready" ∷ "Monthly statement" ∷ "Welcome aboard"
    ∷ "Password reset requested" ∷ "Weekly digest" ∷ "Re: contract draft" ∷ "Standup at 9"
    ∷ "Deployment complete" ∷ "Action required: renew subscription" ∷ "Photos from the trip"
    ∷ "Re: question about pricing" ∷ "Onboarding checklist" ∷ "Server maintenance window" ∷ []

abbrev pub spam_subjects : List String
spam_subjects =
    "You won a prize!!!" ∷ "Cheap meds online now" ∷ "Verify your account immediately"
    ∷ "Hot investment opportunity" ∷ "Claim your reward today" ∷ "Final notice: account suspended"
    ∷ "Congratulations, you are selected" ∷ "Limited time crypto offer" ∷ "URGENT: confirm payment"
    ∷ "Increase your followers fast" ∷ []

abbrev pub spam_rules : List String
spam_rules =
    "Quarantine/Mark Spam (Level 3)" ∷ "Quarantine/Mark Spam (Level 4)"
    ∷ "Quarantine/Mark Spam (Level 5)" ∷ []

abbrev pub virus_rules : List String
virus_rules =
    "Virus (Eicar-Test-Signature)" ∷ "Virus (Trojan.Generic.123)" ∷ "Virus (Worm.Mydoom.A)" ∷ []

abbrev pub block_rules : List String
block_rules =
    "Blacklist" ∷ "Block Dangerous Attachment (.exe)" ∷ "Block Dangerous Attachment (.js)" ∷ []

abbrev pub accept_rules : List String
accept_rules = "default-accept" ∷ "Whitelist" ∷ "default-accept" ∷ "default-accept" ∷ []

abbrev pub sa_ham_hits : List String
sa_ham_hits = "BAYES_00" ∷ "DKIM_VALID,SPF_PASS" ∷ "HTML_MESSAGE" ∷ "BAYES_05,DKIM_VALID" ∷ []

abbrev pub sa_spam_hits : List String
sa_spam_hits =
    "BAYES_99,HTML_IMAGE_ONLY,URIBL_BLACK" ∷ "BAYES_999,FROM_SUSPICIOUS_NTLD,HTML_MESSAGE"
    ∷ "BAYES_99,RAZOR2_CHECK,DCC_CHECK,URIBL_DBL_SPAM" ∷ []

pub record Mailstore : Type 0 where
  pub host : Text
  pub ip : Text
  pub port : ℕ

abbrev pub mailstore : String → String → ℕ → Mailstore
mailstore host ip port = record { host = lit host; ip = lit ip; port = port }

abbrev pub mailstores : List Mailstore
mailstores =
    mailstore "mailstore.example.com" "192.0.2.20" 25
    ∷ mailstore "imap.example.com" "192.0.2.21" 24
    ∷ mailstore "exchange.corp.example" "192.0.2.22" 25
    ∷ []

abbrev pub spam_thr : ℕ
spam_thr = 5

abbrev pub kind_weights : List (MailKind × ℕ)
kind_weights =
    (MailKind.delivered, 64)
    ∷ (MailKind.spam, 16)
    ∷ (MailKind.no_queue, 8)
    ∷ (MailKind.bounced, 4)
    ∷ (MailKind.deferred, 3)
    ∷ (MailKind.virus, 2)
    ∷ (MailKind.blocked, 3)
    ∷ []

abbrev pub hour_weights : List ℕ
hour_weights =
    2 ∷ 1 ∷ 1 ∷ 1 ∷ 1 ∷ 2 ∷ 4 ∷ 8 ∷ 14 ∷ 18 ∷ 20 ∷ 19 ∷ 16 ∷ 18 ∷ 20 ∷ 19 ∷ 16 ∷ 12 ∷ 9 ∷ 7 ∷ 6 ∷ 5
    ∷ 4 ∷ 3 ∷ []
