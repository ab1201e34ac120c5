-- ===== src/Database/Query.antt =====
-- buildSearchQuery of db.go: the WHERE clause of a search in the table, and its arguments.
use plv.Prelude.{
  ℕ, suc, if◌then◌else◌, List, [], ◌∷◌, ◌++◌, ◌≡◌, refl, ap, length, length-append, arith,
  Bool-cases, inl, inr,
}
use plv.Go.Text.{Text, lit, is_empty, text_eq, join}
use plv.Go.Time.Format.{decimal}
use plv.Search.Params.{SearchParams}

-- The locals of the function: `n` is the number of the next placeholder.
pub record Clauses : Type 0 where
  pub conditions : List Text
  pub args : List Text
  pub n : ℕ

unfoldable pub placeholder : ℕ → Text
placeholder n = lit "$" ++ decimal n

unfoldable pub ilike : Text → Text → Text
ilike column place = column ++ (lit " ILIKE " ++ place)

unfoldable pub anywhere : Text → Text
anywhere t = lit "%" ++ (t ++ lit "%")

-- Every %d of the format is the same number.
unfoldable pub term_condition : Text → Text
term_condition place =
    join
      (lit "(\n\t\t\tqueue_id ILIKE "
        ∷ lit " OR from_addr ILIKE "
        ∷ lit " OR to_addr ILIKE "
        ∷ lit " OR\n\t\t\tsubject ILIKE "
        ∷ lit " OR message_id ILIKE "
        ∷ lit " OR status ILIKE "
        ∷ lit " OR\n\t\t\trelay ILIKE "
        ∷ lit " OR client ILIKE "
        ∷ lit " OR origin ILIKE "
        ∷ lit "\n\t\t)"
        ∷ [])
      place

-- A filter that is set adds its condition and its argument.
unfoldable pub add_clause : Text → (Text → Text) → Text → Clauses → Clauses
add_clause filter condition arg c = if is_empty filter then c else record {
  conditions = c.conditions ++ condition (placeholder c.n) ∷ [];
  args = c.args ++ arg ∷ [];
  n = suc c.n;
}

unfoldable pub add_like : Text → Text → Clauses → Clauses
add_like filter column = add_clause filter (ilike column) (anywhere filter)

-- The last numbered one; `n` stays.
unfoldable pub add_queue_id : Text → Clauses → Clauses
add_queue_id filter c = if is_empty filter then c else record c {
  conditions = c.conditions ++ ilike (lit "queue_id") (placeholder c.n) ∷ [];
  args = c.args ++ anywhere filter ∷ [];
}

unfoldable pub add_tls : Text → Clauses → Clauses
add_tls filter c =
    if text_eq filter (lit "yes")
    then record c { conditions = c.conditions ++ lit "tls != ''" ∷ [] }
    else if text_eq filter (lit "no")
    then record c { conditions = c.conditions ++ lit "tls = ''" ∷ [] }
    else c

unfoldable pub clauses : SearchParams → Clauses
clauses p =
    let c1 =
      add_clause p.search_term term_condition (anywhere p.search_term)
        (record { conditions = []; args = []; n = 1 }) in
    let c2 = add_like p.filter_from (lit "from_addr") c1 in
    let c3 = add_like p.filter_to (lit "to_addr") c2 in
    let c4 = add_like p.filter_client (lit "client") c3 in
    let c5 = add_like p.filter_relay (lit "relay") c4 in
    let c6 = add_clause p.filter_status (ilike (lit "status")) p.filter_status c5 in
    add_tls p.filter_tls (add_queue_id p.filter_queue_id c6)

unfoldable pub where_text : List Text → Text
where_text [] = []
where_text (c ∷ cs) = lit "WHERE " ++ join (c ∷ cs) (lit " AND ")

unfoldable pub build_search_query : SearchParams → Text × List Text
build_search_query p = (where_text (clauses p).conditions, (clauses p).args)

-- Two searches that set the same filters, whatever the filters' values are; the filter for TLS has the
-- three values that the code tells apart.
pub record IsAlike (p q : SearchParams) : Type 0 where
  pub search_term : is_empty p.search_term ≡ is_empty q.search_term
  pub filter_from : is_empty p.filter_from ≡ is_empty q.filter_from
  pub filter_to : is_empty p.filter_to ≡ is_empty q.filter_to
  pub filter_client : is_empty p.filter_client ≡ is_empty q.filter_client
  pub filter_relay : is_empty p.filter_relay ≡ is_empty q.filter_relay
  pub filter_status : is_empty p.filter_status ≡ is_empty q.filter_status
  pub filter_queue_id : is_empty p.filter_queue_id ≡ is_empty q.filter_queue_id
  pub tls_yes : text_eq p.filter_tls (lit "yes") ≡ text_eq q.filter_tls (lit "yes")
  pub tls_no : text_eq p.filter_tls (lit "no") ≡ text_eq q.filter_tls (lit "no")

abbrev SameText : Clauses → Clauses → Type 0
SameText c d = (c.conditions ≡ d.conditions) × (c.n ≡ d.n) × (length c.args ≡ length d.args)

add_clause-SameText :
    (f g : Text) (condition : Text → Text) (a b : Text) (c d : Clauses)
    → is_empty f ≡ is_empty g
    → SameText c d
    → SameText (add_clause f condition a c) (add_clause g condition b d)
unfolding add_clause
add_clause-SameText f g condition a b c d e (same, n, l) = elim (Bool-cases (is_empty g)) [
  | inl h ↦ rw (add_clause, e, h) (same, n, l)
  | inr h ↦
      rw (add_clause, e, h)
        (
          rw (same, n) refl,
          ap suc n,
          omega (arith, length-append c.args (a ∷ []), length-append d.args (b ∷ [])),
        )
]

add_queue_id-SameText :
    (f g : Text) (c d : Clauses)
    → is_empty f ≡ is_empty g
    → SameText c d
    → SameText (add_queue_id f c) (add_queue_id g d)
unfolding add_queue_id
add_queue_id-SameText f g c d e (same, n, l) = elim (Bool-cases (is_empty g)) [
  | inl h ↦ rw (add_queue_id, e, h) (same, n, l)
  | inr h ↦
      rw (add_queue_id, e, h)
        (
          rw (same, n) refl,
          n,
          omega (
            arith,
            length-append c.args (anywhere f ∷ []),
            length-append d.args (anywhere g ∷ []),
          ),
        )
]

add_tls-SameText :
    (f g : Text) (c d : Clauses)
    → text_eq f (lit "yes") ≡ text_eq g (lit "yes")
    → text_eq f (lit "no") ≡ text_eq g (lit "no")
    → SameText c d
    → SameText (add_tls f c) (add_tls g d)
unfolding add_tls
add_tls-SameText f g c d y z (same, n, l) = elim (Bool-cases (text_eq g (lit "yes"))) [
  | inl h ↦ rw (add_tls, y, h) (ap (λ x. x ++ lit "tls != ''" ∷ []) same, n, l)
  | inr h ↦ elim (Bool-cases (text_eq g (lit "no"))) [
    | inl k ↦ rw (add_tls, y, z, h, k) (ap (λ x. x ++ lit "tls = ''" ∷ []) same, n, l)
    | inr k ↦ rw (add_tls, y, z, h, k) (same, n, l)
  ]
]

-- No text of a search reaches the SQL: two searches that set the same filters get the same WHERE clause,
-- whatever they search for, with the same number of arguments.
pub build_search_query-SameText :
    (p q : SearchParams)
    → IsAlike p q
    → ((build_search_query p).0 ≡ (build_search_query q).0)
      × (length (build_search_query p).1 ≡ length (build_search_query q).1)
unfolding build_search_query clauses add_like
build_search_query-SameText p q a =
    let s1 =
      add_clause-SameText p.search_term q.search_term term_condition _ _ _ _ a.search_term
        (refl, refl, refl) in
    let s2 = add_clause-SameText p.filter_from q.filter_from _ _ _ _ _ a.filter_from s1 in
    let s3 = add_clause-SameText p.filter_to q.filter_to _ _ _ _ _ a.filter_to s2 in
    let s4 = add_clause-SameText p.filter_client q.filter_client _ _ _ _ _ a.filter_client s3 in
    let s5 = add_clause-SameText p.filter_relay q.filter_relay _ _ _ _ _ a.filter_relay s4 in
    let s6 = add_clause-SameText p.filter_status q.filter_status _ _ _ _ _ a.filter_status s5 in
    let s7 = add_queue_id-SameText p.filter_queue_id q.filter_queue_id _ _ a.filter_queue_id s6 in
    let s8 = add_tls-SameText p.filter_tls q.filter_tls _ _ a.tls_yes a.tls_no s7 in
    (ap where_text s8.0, s8.2)
