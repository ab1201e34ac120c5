-- ===== src/Store/Lines.antt =====
-- mergeDeliveryLeg and mergeRecord of store.go: the identity and the lines of their result.
use plv.Prelude.{◌≡◌, refl, true, false, not, List, [], ◌∷◌, ◌++◌, arith, keep}
use plv.Go.Text.{Text, text_eq_iff, elem}
use plv.Go.Time.{Env}
use plv.Records.{Record}
use plv.Rspamd.{RspamdVerdict, append_new, enrich_with_rspamd}
use plv.Parser.Timeline.{elem-append, elem-sort_raw_by_time}
use plv.Store.Merge.{
  merged_lines, merge_delivery_leg, merge_lines, fill_fields, refresh_status, refresh_disposition,
  merge_record,
}
use plv.Store.Index.{Sub, Kept}

elem_nil : (l : Text) → elem l [] ≡ false
unfolding elem
elem_nil l = refl

Sub-merged_lines_left : (env : Env) (p leg : Record) → Sub p.raw_lines (merged_lines env p leg)
unfolding merged_lines
Sub-merged_lines_left env p leg l h = ground (
  arith,
  elem-sort_raw_by_time env l (p.raw_lines ++ leg.raw_lines),
  elem-append l p.raw_lines leg.raw_lines,
)

Sub-merged_lines_right : (env : Env) (p leg : Record) → Sub leg.raw_lines (merged_lines env p leg)
unfolding merged_lines
Sub-merged_lines_right env p leg l h = ground (
  arith,
  elem-sort_raw_by_time env l (p.raw_lines ++ leg.raw_lines),
  elem-append l p.raw_lines leg.raw_lines,
  elem_nil l,
)

pub Kept-merge_delivery_leg :
    (env : Env) (p leg : Record)
    → Kept p (merge_delivery_leg env p leg)
      × Sub leg.raw_lines (merge_delivery_leg env p leg).raw_lines
unfolding merge_delivery_leg
Kept-merge_delivery_leg env p leg =
    ((refl, refl, Sub-merged_lines_left env p leg), Sub-merged_lines_right env p leg)

elem-keep :
    (l : Text) (xs ys : List Text)
    → elem l xs ≡ false
    → elem l ys ≡ true
    → elem l (keep (λ m. not (elem m xs)) ys) ≡ true
unfolding elem
elem-keep l xs [] h k = k
elem-keep l xs (y ∷ ys) h k = ground (arith, elem-keep l xs ys, text_eq_iff y l)

Sub-merge_lines_right : (xs ys : List Text) → Sub ys (merge_lines xs ys)
unfolding merge_lines
Sub-merge_lines_right xs ys l h =
    ground (arith, elem-append l xs (keep (λ m. not (elem m xs)) ys), elem-keep l xs ys)

Sub-merge_lines_left : (xs ys : List Text) → Sub xs (merge_lines xs ys)
unfolding merge_lines
Sub-merge_lines_left xs ys l h = ground (arith, elem-append l xs (keep (λ m. not (elem m xs)) ys))

-- What the last two steps of a merge leave as it is.
frame-merge_record :
    (dst src : Record)
    → ((merge_record dst src).origin ≡ dst.origin)
      × ((merge_record dst src).queue_id ≡ dst.queue_id)
      × ((merge_record dst src).raw_lines ≡ merge_lines dst.raw_lines src.raw_lines)
      × ((merge_record dst src).subsumed ≡ dst.subsumed)
unfolding merge_record refresh_disposition refresh_status fill_fields
frame-merge_record dst src = ground arith

pub Kept-merge_record :
    (dst src : Record)
    → Kept dst (merge_record dst src) × Sub src.raw_lines (merge_record dst src).raw_lines
Kept-merge_record dst src =
    let (o, q, ls, _) = frame-merge_record dst src in
    (
      (o, q, rw ls (Sub-merge_lines_left dst.raw_lines src.raw_lines)),
      rw ls (Sub-merge_lines_right dst.raw_lines src.raw_lines),
    )

pub Kept-enrich : (r : Record) (v : RspamdVerdict) → Kept r (enrich_with_rspamd r v)
unfolding enrich_with_rspamd append_new
Kept-enrich r v = (refl, refl, λ l h. ground (arith, elem-append l r.raw_lines (v.raw_line ∷ [])))
