-- ===== src/Protocol/Http/HeaderLoop.antt =====
-- The parser's loop over the header lines that a client writes, and what is behind them.
use network_lirbary.Common.{
  ℕ, zero, suc, ◌+◌, ◌^◌, ◌≤◌, ◌<◌, ◌≡◌, ◌≢◌, refl, sym, ap, ◌∙◌, false, ltb, le→leb, le→ltb, List,
  [], ◌∷◌, ◌++◌, some, length, drop, Bytes, All, arith, append_assoc, take-append_exact,
  drop-append_exact, length-append, drop-drop,
}
use network_lirbary.Common.Dict.{lookup, insert}
use network_lirbary.Memory.Buffer.Crlf.{Plain, Plain-NoCrlf, search_crlf_first}
use network_lirbary.Protocol.Client.{decimal}
use network_lirbary.Protocol.Http.{
  HttpContext, complete, done, expect_body, header_at, header_line, body_of_size, parse_body,
  headers_end, headers_loop,
}
use network_lirbary.Protocol.Http.Text.{content_length}
use network_lirbary.Protocol.Http.Text.Lines.{
  Colonless, Plain-append, find_colon_lem, pop_carriage_return-Plain,
}
use network_lirbary.Protocol.Http.Text.Numerals.{to_size-decimal}
use network_lirbary.Protocol.Http.Resume.{bytes_source, split_line, split_bytes, headers_loop-fuel}
use network_lirbary.Protocol.Http.Handler.{crlf}
use network_lirbary.Protocol.Http.Client.{header, headers_of}

pub split_line_lem :
    (line rest : Bytes) → Plain line → split_line (line ++ (crlf ++ rest)) ≡ some (line, rest)
unfolding split_line
split_line_lem line rest p = rw (
  search_crlf_first line rest (Plain-NoCrlf line p),
  take-append_exact (length line) line (crlf ++ rest) refl,
  ← drop-drop 2 (length line) (line ++ (crlf ++ rest)),
  drop-append_exact (length line) line (crlf ++ rest) refl,
)

header_line_lem :
    (c : HttpContext) (key value : Bytes)
    → Colonless key
    → Plain value
    → header_line c (key ++ b':' ∷ 32 ∷ value)
      ≡ some (record c { headers = insert key value c.headers })
unfolding header_line header_at
header_line_lem c key value p q =
    let line : Bytes = key ++ b':' ∷ 32 ∷ value in
    let enough : ltb (length line) (length key + 2) ≡ false =
      le→ltb (length line) (length key + 2)
        (omega (arith, length-append key (b':' ∷ 32 ∷ value))) in
    let behind : drop (length key + 2) line ≡ value =
      sym (drop-drop 2 (length key) line)
      ∙ ap (drop 2) (drop-append_exact (length key) key (b':' ∷ 32 ∷ value) refl) in
    rw (
      find_colon_lem key (32 ∷ value) p,
      enough,
      behind,
      take-append_exact (length key) key (b':' ∷ 32 ∷ value) refl,
      pop_carriage_return-Plain value q,
    )

-- A field that can be written as a header.
pub record IsField (key value : Bytes) : Type 0 where
  pub colonless : Colonless key
  pub plain_key : Plain key
  pub plain_value : Plain value

abbrev add_header : Bytes → Bytes → HttpContext → HttpContext
add_header key value c = record c { headers = insert key value c.headers }

abbrev pub AreFields : List (Bytes × Bytes) → Type 0
AreFields = All (λ kv. IsField kv.0 kv.1)

abbrev pub add_headers : List (Bytes × Bytes) → List (Bytes × Bytes) → List (Bytes × Bytes)
add_headers [] hs = hs
add_headers ((k, v) ∷ kvs) hs = add_headers kvs (insert k v hs)

one_line :
    (fuel : ℕ) (c c' : HttpContext) (x : ℕ) (line xs rest : Bytes)
    → split_line xs ≡ some (x ∷ line, rest)
    → header_line c (x ∷ line) ≡ some c'
    → headers_loop bytes_source (suc fuel) c xs ≡ headers_loop bytes_source fuel c' rest
unfolding headers_loop
one_line fuel c c' x line xs rest l h = rw (l, h, headers_loop)

a_line :
    (fuel : ℕ) (c c' : HttpContext) (line xs rest : Bytes)
    → line ≢ []
    → split_line xs ≡ some (line, rest)
    → header_line c line ≡ some c'
    → headers_loop bytes_source (suc fuel) c xs ≡ headers_loop bytes_source fuel c' rest
a_line fuel c c' [] xs rest n l h = absurd (n refl)
a_line fuel c c' (x ∷ line) xs rest n l h = one_line fuel c c' x line xs rest l h

with_colon : (key rest : Bytes) → (key ++ b':' ∷ rest) ≢ []
with_colon [] rest e = cc
with_colon (x ∷ key) rest e = cc

field-Plain : (key value : Bytes) → IsField key value → Plain (key ++ b':' ∷ 32 ∷ value)
field-Plain key value f =
    Plain-append key (b':' ∷ 32 ∷ value) f.plain_key (refl, (refl, f.plain_value))

header-join :
    (key value rest : Bytes)
    → header key value ++ rest ≡ (key ++ b':' ∷ 32 ∷ value) ++ (crlf ++ rest)
header-join key value rest = simp append_assoc

pub length-header : (key value rest : Bytes) → length rest + 2 ≤ length (header key value ++ rest)
length-header key value rest = omega (
  arith,
  ap length (header-join key value rest),
  length-append (key ++ b':' ∷ 32 ∷ value) (crlf ++ rest),
)

-- The loop reads one header, and
pub header_loop :
    (fuel : ℕ) (c : HttpContext) (key value rest : Bytes)
    → IsField key value
    → length (header key value ++ rest) < fuel
    → headers_loop bytes_source fuel c (header key value ++ rest)
      ≡ headers_loop bytes_source fuel (add_header key value c) rest
header_loop zero c key value rest f room = absurd (omega arith)
header_loop (suc fuel) c key value rest f room =
    rw (header-join key value rest) (
      a_line fuel c (add_header key value c) (key ++ b':' ∷ 32 ∷ value) _ rest
        (with_colon key (32 ∷ value)) (split_line_lem _ rest (field-Plain key value f))
        (header_line_lem c key value f.colonless f.plain_value))
    ∙ headers_loop-fuel fuel (suc fuel) (add_header key value c) rest
        (omega (arith, length-header key value rest)) (omega (arith, length-header key value rest))

-- then all of them.
pub headers_loop_lem :
    (fuel : ℕ) (c : HttpContext) (kvs : List (Bytes × Bytes)) (rest : Bytes)
    → AreFields kvs
    → length (headers_of kvs ++ rest) < fuel
    → headers_loop bytes_source fuel c (headers_of kvs ++ rest)
      ≡ headers_loop bytes_source fuel (record c { headers = add_headers kvs c.headers }) rest
headers_loop_lem fuel c [] rest p room = refl
headers_loop_lem fuel c ((k, v) ∷ kvs) rest p room =
    let behind : Bytes = headers_of kvs ++ rest in
    rw (append_assoc (header k v) (headers_of kvs) rest) (
      header_loop fuel c k v behind p.0
        (rw (← append_assoc (header k v) (headers_of kvs) rest) room)
      ∙ headers_loop_lem fuel (add_header k v c) kvs rest p.1 (
          omega (
            arith,
            length-header k v behind,
            ap length (append_assoc (header k v) (headers_of kvs) rest),
          )))

split_bytes_lem : (body rest : Bytes) → split_bytes (length body) (body ++ rest) ≡ some (body, rest)
unfolding split_bytes
split_bytes_lem body rest = rw (
  le→leb (length body) (length (body ++ rest)) (omega (arith, length-append body rest)),
  take-append_exact (length body) body rest refl,
  drop-append_exact (length body) body rest refl,
)

body_lem :
    (c : HttpContext) (body rest : Bytes)
    → length body < 2 ^ 31
    → lookup content_length c.headers ≡ some (decimal 20 (length body))
    → parse_body bytes_source c (body ++ rest)
      ≡ complete (record c { state = done; body = body }) rest
unfolding parse_body body_of_size
body_lem c body rest small e =
    rw (e, to_size-decimal (length body) small, split_bytes_lem body rest, body_of_size)

-- The empty line and a body of the given length.
pub headers_end_lem :
    (fuel : ℕ) (c : HttpContext) (body rest : Bytes)
    → length body < 2 ^ 31
    → lookup content_length c.headers ≡ some (decimal 20 (length body))
    → length (crlf ++ (body ++ rest)) < fuel
    → headers_loop bytes_source fuel c (crlf ++ (body ++ rest))
      ≡ some (complete (record c { state = done; body = body }) rest)
unfolding headers_loop headers_end
headers_end_lem zero c body rest small e room = absurd (omega arith)
headers_end_lem (suc fuel) c body rest small e room =
    rw (split_line_lem [] (body ++ rest) tt, e, headers_loop)
      (ap some (body_lem (record c { state = expect_body }) body rest small e))
