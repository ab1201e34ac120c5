-- ===== src/Detail/Pairs.antt =====
-- The pairing of rejections in GetDetail of store.go.
use plv.Prelude.{◌*◌, ℕ, ◌≡◌, ◌≤◌, refl, true, false, [], ◌∷◌, length, arith}
use plv.Go.Text.{Text, text_eq, contains, has_prefix, equal_fold, to_lower}
use plv.Go.Time.{minute}
use plv.Records.{Record}
use plv.Detail.{
  reject_embeds, within_window, details_pair, same_recipient, is_self, is_paired, shows_reject,
  squeeze,
}

has_prefix-le : (s t : Text) → has_prefix s t ≡ true → length t ≤ length s
unfolding has_prefix
has_prefix-le s [] h = omega arith
has_prefix-le [] (d ∷ t) h = ground arith
has_prefix-le (c ∷ s) (d ∷ t) h = ground (arith, has_prefix-le s t)

contains-le : (s t : Text) → contains s t ≡ true → length t ≤ length s
unfolding contains
contains-le [] t h = has_prefix-le [] t h
contains-le (c ∷ s) t h = ground (arith, contains-le s t, has_prefix-le (c ∷ s) t)

-- A prefix as long as the text is the text.
has_prefix-eq : (s t : Text) → length s ≡ length t → has_prefix s t ≡ true → text_eq s t ≡ true
unfolding has_prefix text_eq
has_prefix-eq [] [] e h = refl
has_prefix-eq [] (d ∷ t) e h = ground arith
has_prefix-eq (c ∷ s) [] e h = ground arith
has_prefix-eq (c ∷ s) (d ∷ t) e h = ground (arith, has_prefix-eq s t)

contains-eq : (s t : Text) → length s ≡ length t → contains s t ≡ true → text_eq s t ≡ true
unfolding contains
contains-eq [] t e h = has_prefix-eq [] t e h
contains-eq (c ∷ s) t e h = ground (arith, contains-le s t, has_prefix-eq (c ∷ s) t)

text_eq-sym : (s t : Text) → text_eq s t ≡ text_eq t s
unfolding text_eq
text_eq-sym [] [] = refl
text_eq-sym [] (d ∷ t) = refl
text_eq-sym (c ∷ s) [] = refl
text_eq-sym (c ∷ s) (d ∷ t) = ground (arith, text_eq-sym s t)

details_pair-sym : (a b : Text) → details_pair a b ≡ details_pair b a
unfolding details_pair reject_embeds
details_pair-sym a b = ground (arith, text_eq-sym a b, contains-eq a b, contains-eq b a)

is_self-sym : (r o : Record) → is_self r o ≡ is_self o r
unfolding is_self
is_self-sym r o = ground (arith, text_eq-sym r.origin o.origin, text_eq-sym r.queue_id o.queue_id)

same_recipient-sym : (r o : Record) → same_recipient r o ≡ same_recipient o r
unfolding same_recipient equal_fold
same_recipient-sym r o = ground (arith, text_eq-sym (to_lower r.to) (to_lower o.to))

within_window-sym : (a b d : ℕ) → within_window a b d ≡ within_window b a d
unfolding within_window
within_window-sym a b d = ground arith

-- Of two visible rejections, the detail of the one shows the other exactly when the detail of the
-- other shows the one.
pub shows_reject-sym :
    (r o : Record) → r.subsumed ≡ false → o.subsumed ≡ false → shows_reject r o ≡ shows_reject o r
unfolding shows_reject is_paired
shows_reject-sym r o h k = ground (
  arith,
  is_self-sym r o,
  same_recipient-sym r o,
  within_window-sym r.timestamp o.timestamp (15 * minute),
  details_pair-sym (squeeze r.status_detail) (squeeze o.status_detail),
)
