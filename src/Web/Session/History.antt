-- ===== src/Web/Session/History.antt =====
-- The sessions of handlers.go over a history of logins, logouts and rounds of cleanup, and the plain
-- description of the same history, which never cleans up.
use plv.Prelude.{
  ◌+◌, ◌*◌, ◌≤◌, ◌≡◌, refl, ◌∙◌, Bool, false, ltb, if◌then◌else◌, List, [], ◌∷◌, Option, none, some,
  arith, Bool-cases, inl, inr,
}
use plv.Go.Text.{Text, text_eq, text_eq_iff}
use plv.Go.Map.{
  lookup, insert, delete, lookup-insert, lookup-delete, IsMap, IsMap-insert, IsMap-delete,
}
use plv.Go.Strconv.{hex_encode}
use plv.Go.Time.{Time, hour}
use plv.Web.Session.{Sessions, create, is_valid, remove, cleanup}

pub data Event : Type 0 where
  login : Text → Event
  logout : Text → Event
  sweep : Event

unfoldable pub step : Time × Event → Sessions → Sessions
step (now, login random) ss = create now random ss
step (now, logout token) ss = remove token ss
step (now, sweep) ss = cleanup now ss

unfoldable pub run : List (Time × Event) → Sessions → Sessions
run [] ss = ss
run (e ∷ es) ss = run es (step e ss)

-- The description: when each token runs out.
abbrev pub Deadlines : Type 0
Deadlines = Text → Option Time

unfoldable pub spec_step : Time × Event → Deadlines → Deadlines
spec_step (now, login random) d token =
    if text_eq (hex_encode random) token then some (now + 24 * hour) else d token
spec_step (now, logout gone) d token = if text_eq gone token then none else d token
spec_step (now, sweep) d token = d token

unfoldable pub spec_run : List (Time × Event) → Deadlines → Deadlines
spec_run [] d = d
spec_run (e ∷ es) d = spec_run es (spec_step e d)

abbrev pub is_before : Time → Option Time → Bool
is_before now none = false
is_before now (some expiry) = ltb now expiry

-- The clock does not go back, and the last instant is at most this one.
abbrev pub IsOrdered : Time → List (Time × Event) → Time → Type 0
IsOrdered from [] until = from ≤ until
IsOrdered from ((now, e) ∷ es) until = (from ≤ now) × IsOrdered now es until

missing_stays :
    (now : Time) (k : Text) (ss : Sessions) → lookup k ss ≡ none → lookup k (cleanup now ss) ≡ none
unfolding cleanup lookup
missing_stays now k [] h = h
missing_stays now k ((j, e) ∷ ss) h = ground (arith, missing_stays now k ss)

IsMap-cleanup : (now : Time) (ss : Sessions) → IsMap ss → IsMap (cleanup now ss)
unfolding cleanup
IsMap-cleanup now [] h = tt
IsMap-cleanup now ((j, e) ∷ ss) (new, h) = elim (Bool-cases (ltb e now)) [
  | inl q ↦ rw q (IsMap-cleanup now ss h)
  | inr q ↦ rw q (missing_stays now j ss new, IsMap-cleanup now ss h)
]

-- A round of cleanup takes away only what has run out.
is_valid-cleanup :
    (now t : Time) (token : Text) (ss : Sessions)
    → IsMap ss
    → now ≤ t
    → is_valid t token (cleanup now ss) ≡ is_valid t token ss
unfolding is_valid cleanup lookup
is_valid-cleanup now t token [] h le = refl
is_valid-cleanup now t token ((j, e) ∷ ss) (new, h) le =
    ground (arith, is_valid-cleanup now t token ss h, text_eq_iff j token, missing_stays now j ss)

is_valid-insert :
    (t e : Time) (k token : Text) (ss : Sessions)
    → is_valid t token (insert k e ss) ≡ (if text_eq k token then ltb t e else is_valid t token ss)
unfolding is_valid
is_valid-insert t e k token ss = ground (arith, lookup-insert k token e ss)

is_valid-delete :
    (t : Time) (k token : Text) (ss : Sessions)
    → is_valid t token (delete k ss) ≡ (if text_eq k token then false else is_valid t token ss)
unfolding is_valid
is_valid-delete t k token ss = ground (arith, lookup-delete k token ss)

-- From an instant on, the sessions answer as the deadlines do.
abbrev pub Implements : Time → Sessions → Deadlines → Type 0
Implements now ss d =
    IsMap ss × ((t : Time) (token : Text) → now ≤ t → is_valid t token ss ≡ is_before t (d token))

step-Implements :
    (from now : Time) (e : Event) (ss : Sessions) (d : Deadlines)
    → from ≤ now
    → Implements from ss d
    → Implements now (step (now, e) ss) (spec_step (now, e) d)
unfolding step spec_step create remove
step-Implements from now (login random) ss d le (m, h) = (
  IsMap-insert (hex_encode random) (now + 24 * hour) ss m,
  λ t token q.
      ground (arith, h t token, is_valid-insert t (now + 24 * hour) (hex_encode random) token ss),
)
step-Implements from now (logout gone) ss d le (m, h) = (
  IsMap-delete gone ss m,
  λ t token q. ground (arith, h t token, is_valid-delete t gone token ss),
)
step-Implements from now sweep ss d le (m, h) = (
  IsMap-cleanup now ss m,
  λ t token q. is_valid-cleanup now t token ss m q ∙ h t token (omega arith),
)

-- The sessions of a server implement the plain description, in which a token is good for 24 hours
-- from its login, or until a logout: over every history in which the clock does not go back, Valid
-- answers as the description at every later instant, whenever the rounds of cleanup took place.
pub run-Implements :
    (from until : Time) (es : List (Time × Event)) (ss : Sessions) (d : Deadlines)
    → IsOrdered from es until
    → Implements from ss d
    → Implements until (run es ss) (spec_run es d)
unfolding run spec_run
run-Implements from until [] ss d le (m, h) = (m, λ t token q. h t token (omega arith))
run-Implements from until ((now, e) ∷ es) ss d (le, ord) h =
    run-Implements now until es (step (now, e) ss) (spec_step (now, e) d) ord
      (step-Implements from now e ss d le h)
