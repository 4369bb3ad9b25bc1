-- ===== src/Observability/Tracer.antt =====
-- `Tracer` of lib_network/src/observability/tracing/tracer.cc: the identifiers of spans, and
-- their hand-over between processes in the header "traceparent". `std::rand` is a parameter. What
-- a finished span writes to the log is left out. `sampled` is false in a context that `Extract`
-- leaves uninitialised.
pub mod Propagation
mod Tests
use network_lirbary.Common.Dict.{lookup, insert}
use network_lirbary.Common.Text.{codes, is_empty}
use network_lirbary.Common.{
  ℕ, zero, suc, ◌+◌, ◌%◌, Bool, true, false, ltb, leb, if◌then◌else◌, List, [], ◌∷◌, ◌++◌, Option,
  none, some, length, take, drop, Bytes,
}

pub record SpanContext : Type 0 where
  pub trace_id : Bytes
  pub span_id : Bytes
  pub parent_span_id : Bytes
  pub sampled : Bool

abbrev pub no_context : SpanContext
no_context = record { trace_id = []; span_id = []; parent_span_id = []; sampled = false }

pub record Span : Type 0 where
  pub context : SpanContext
  pub name : Bytes
  pub start_time : ℕ

-- A digit of "0123456789abcdef".
abbrev pub hex : ℕ → ℕ
hex d = if ltb d 10 then b'0' + d else b'a' + d % 10

module _ {World : Type 0} (rand : World → ℕ × World) where
  unfoldable pub generate_id : ℕ → World → Bytes × World
  generate_id zero w = ([], w)
  generate_id (suc n) w =
      let (r, w1) = rand w in let (id, w2) = generate_id n w1 in (hex (r % 16) ∷ id, w2)

  -- A trace is continued, or a new one is begun.
  pub trace_of : SpanContext → World → Bytes × World
  trace_of parent w = if is_empty parent.trace_id then generate_id 32 w else (parent.trace_id, w)

  pub start_span : Bytes → SpanContext → ℕ → World → Span × World
  start_span name parent now w =
      let (trace_id, w1) = trace_of parent w in
      let (span_id, w2) = generate_id 16 w1 in
      (
        record {
          context = record {
            trace_id = trace_id;
            span_id = span_id;
            parent_span_id = parent.span_id;
            sampled = true;
          };
          name = name;
          start_time = now;
        },
        w2,
      )

abbrev pub traceparent : Bytes
traceparent = codes "traceparent"

abbrev pub parsed : Option Bytes → SpanContext
parsed none = no_context
parsed (some val) =
    if leb 55 (length val)
    then record no_context {
      trace_id = take 32 (drop 3 val);
      parent_span_id = take 16 (drop 36 val);
    }
    else no_context

pub extract : List (Bytes × Bytes) → SpanContext
extract headers = parsed (lookup traceparent headers)

pub inject : SpanContext → List (Bytes × Bytes) → List (Bytes × Bytes)
inject ctx headers =
    insert traceparent (codes "00-" ++ ctx.trace_id ++ codes "-" ++ ctx.span_id ++ codes "-01")
      headers
