-- ===== src/Observability/Tracer/Propagation.antt =====
-- What a span's identifiers become in another process.
use network_lirbary.Common.Dict.{bytes_eq_refl, lookup, lookup-insert}
use network_lirbary.Common.Text.{codes, is_empty}
use network_lirbary.Common.{
  ℕ, zero, suc, ◌≡◌, refl, sym, ap, ap₂, ◌∙◌, true, false, leb, le→leb, if◌then◌else◌, List, [],
  ◌∷◌, ◌++◌, some, length, take, drop, Bytes, arith, length-append, append_assoc, take-append_exact,
  drop-append_exact, drop-drop,
}
use network_lirbary.Observability.Tracer.{
  SpanContext, no_context, generate_id, trace_of, start_span, traceparent, parsed, extract, inject,
}

length-generate_id :
    {World : Type 0} (rand : World → ℕ × World) (n : ℕ) (w : World)
    → length (generate_id rand n w).0 ≡ n
unfolding generate_id
length-generate_id rand zero w = refl
length-generate_id rand (suc n) w = ap suc (length-generate_id rand n (rand w).1)

abbrev header : Bytes → Bytes → Bytes
header trace span = codes "00-" ++ trace ++ codes "-" ++ span ++ codes "-01"

header_right :
    (trace span : Bytes)
    → header trace span ≡ codes "00-" ++ (trace ++ (codes "-" ++ (span ++ codes "-01")))
header_right trace span = simp append_assoc

lookup-inject :
    (ctx : SpanContext) (headers : List (Bytes × Bytes))
    → lookup traceparent (inject ctx headers) ≡ some (header ctx.trace_id ctx.span_id)
unfolding inject
lookup-inject ctx headers = rw (lookup-insert, bytes_eq_refl traceparent)

-- The pieces of a header with identifiers of the right length.
module _ (trace span : Bytes) (p : length trace ≡ 32) (q : length span ≡ 16) where
  abbrev rest : Bytes
  rest = codes "-" ++ (span ++ codes "-01")

  long_enough : leb 55 (length (codes "00-" ++ (trace ++ rest))) ≡ true
  long_enough =
      le→leb 55 (length (codes "00-" ++ (trace ++ rest)))
        (omega (arith, length-append trace rest, length-append span (codes "-01")))

  trace_part : take 32 (drop 3 (codes "00-" ++ (trace ++ rest))) ≡ trace
  trace_part = take-append_exact 32 trace rest (sym p)

  span_part : take 16 (drop 36 (codes "00-" ++ (trace ++ rest))) ≡ span
  span_part =
      ap (take 16) (
        sym (drop-drop 1 32 (trace ++ rest))
        ∙ ap (drop 1) (drop-append_exact 32 trace rest (sym p)))
      ∙ take-append_exact 16 span (codes "-01") (sym q)

  parsed-header :
      parsed (some (header trace span))
      ≡ record no_context { trace_id = trace; parent_span_id = span }
  parsed-header =
      ap (λ h. parsed (some h)) (header_right trace span)
      ∙ ap
          (λ b.
            if b
            then record no_context {
              trace_id = take 32 (drop 3 (codes "00-" ++ (trace ++ rest)));
              parent_span_id = take 16 (drop 36 (codes "00-" ++ (trace ++ rest)));
            }
            else no_context)
          long_enough
      ∙ ap₂ (λ t s. record no_context { trace_id = t; parent_span_id = s }) trace_part span_part

some_more : (xs : Bytes) → length xs ≡ 32 → is_empty xs ≡ false
some_more [] e = absurd (omega (arith, e))
some_more (x ∷ xs) e = refl

-- A context with a trace of 32 bytes and a span of 16 bytes is injected into the headers of a
-- request and extracted from them again, whatever headers were there: what comes out has this
-- trace, and this span as its parent. A span that is then started from it is of the same trace
-- and has an identifier of 16 digits, and its parent is empty.
pub start_span-extract-inject :
    {World : Type 0} (rand : World → ℕ × World) (ctx : SpanContext) (headers : List (Bytes × Bytes))
    (name : Bytes) (now : ℕ) (w : World)
    → length ctx.trace_id ≡ 32
    → length ctx.span_id ≡ 16
    → (extract (inject ctx headers)
        ≡ record no_context { trace_id = ctx.trace_id; parent_span_id = ctx.span_id })
      × ((start_span rand name (extract (inject ctx headers)) now w).0.context.trace_id
          ≡ ctx.trace_id)
      × (length (start_span rand name (extract (inject ctx headers)) now w).0.context.span_id ≡ 16)
      × ((start_span rand name (extract (inject ctx headers)) now w).0.context.parent_span_id ≡ [])
unfolding start_span trace_of extract
start_span-extract-inject rand ctx headers name now w p q =
    let e : extract (inject ctx headers)
        ≡ record no_context { trace_id = ctx.trace_id; parent_span_id = ctx.span_id } =
      ap parsed (lookup-inject ctx headers) ∙ parsed-header ctx.trace_id ctx.span_id p q in
    (
      e,
      ap (λ (c : SpanContext). (start_span rand name c now w).0.context.trace_id) e
          ∙ ap (λ b. (if b then generate_id rand 32 w else (ctx.trace_id, w)).0)
              (some_more ctx.trace_id p),
      length-generate_id rand 16 _,
      ap (λ (c : SpanContext). c.span_id) e,
    )
