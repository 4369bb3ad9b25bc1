-- ===== src/Observability/Tracer/Tests.antt =====
-- A generator that counts.
use network_lirbary.Common.Text.{codes}
use network_lirbary.Common.{ℕ, suc, ◌≡◌, refl, true, [], length}
use network_lirbary.Observability.Tracer.Propagation.{start_span-extract-inject}
use network_lirbary.Observability.Tracer.{SpanContext, no_context, start_span, extract, inject}

abbrev rand : ℕ → ℕ × ℕ
rand n = (n, suc n)

abbrev context : SpanContext
context = record {
  trace_id = codes "0123456789abcdef0123456789abcdef";
  span_id = codes "00f067aa0ba902b7";
  parent_span_id = [];
  sampled = true;
}

start_span-extract-inject_example :
    (extract (inject context [])
      ≡ record no_context { trace_id = context.trace_id; parent_span_id = context.span_id })
    × ((start_span rand (codes "order") (extract (inject context [])) 0 7).0.context.trace_id
        ≡ context.trace_id)
    × (length (start_span rand (codes "order") (extract (inject context [])) 0 7).0.context.span_id
        ≡ 16)
    × ((start_span rand (codes "order") (extract (inject context [])) 0 7).0.context.parent_span_id
        ≡ [])
start_span-extract-inject_example =
    start_span-extract-inject rand context [] (codes "order") 0 7 refl refl
