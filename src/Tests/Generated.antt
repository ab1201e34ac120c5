-- ===== src/Tests/Generated.antt =====
-- Draws of the log generator with a counter in place of random numbers.
use plv.Prelude.{ℕ, ◌+◌, ◌%◌, ◌≡◌, refl, false, [], ◌∷◌}
use plv.Go.Text.{lit}
use plv.Go.Time.Format.{format_rfc3339}
use plv.Loggen.{Gen, pick_kind, weighted, total_weight, sum, hex, get_or, sprintf, sprintf_from}
use plv.Loggen.Data.{MailKind}
use plv.Tests.Samples.{env}

abbrev counter : Gen ℕ (Unit {0})
counter = record {
  int_n = λ n r. (r % n, r + 7);
  float64 = λ r. (tt, r);
  constant = λ s. tt;
  of_int = λ n. tt;
  add = λ a b. tt;
  sub = λ a b. tt;
  mul = λ a b. tt;
  less = λ a b. false;
  truncate = λ a. 1;
  format = λ n a. lit "1.0";
  stamp = format_rfc3339;
  stamp14 = λ t. lit "20260630061200";
  now = env.now;
  add_days = λ t d. t;
  is_weekend = λ t. false;
  clock_on = λ t h m s ns. t;
}

-- The first 64 of 100 numbers are delivered messages.
kinds_at_edges :
    ((pick_kind counter 63).0 ≡ MailKind.delivered) × ((pick_kind counter 64).0 ≡ MailKind.spam)
unfolding pick_kind weighted total_weight sum
kinds_at_edges = (refl, refl)

one_queue_id : (hex counter 10 3).0 ≡ lit "3A18F6D4B2"
unfolding hex get_or lit
one_queue_id = refl

formatted :
    sprintf "postfix/qmgr[%d]: %s: delay=%.1f" (lit "12" ∷ lit "AB" ∷ lit "0.5" ∷ [])
    ≡ lit "postfix/qmgr[12]: AB: delay=0.5"
unfolding sprintf sprintf_from lit
formatted = refl
