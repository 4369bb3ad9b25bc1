-- ===== src/Protocol/Http/RoundTrip.antt =====
-- The server's parser reads back the requests that the client of http_protocol.h writes.
use network_lirbary.Common.{
  ℕ, ◌+◌, ◌^◌, ◌<◌, ◌≡◌, ◌≢◌, refl, sym, ap, ap₂, ◌∙◌, concat, List, [], ◌∷◌, ◌++◌, Option, some,
  length, Bytes, arith, append_assoc, append-nil, length-append,
}
use network_lirbary.Common.Dict.{lookup, insert, lookup-insert, bytes_eq}
use network_lirbary.Memory.Buffer.{Buffer}
use network_lirbary.Memory.Buffer.Contents.{Queued, contents}
use network_lirbary.Protocol.Http.Fragments.{feed, seen, verdict, Meets, feed-verdict}
use network_lirbary.Memory.Buffer.Crlf.{Plain}
use network_lirbary.Protocol.Client.{decimal}
use network_lirbary.Protocol.Http.{
  HttpContext, new_context, Parsed, incomplete, complete, done, expect_headers, request_line,
  headers_loop, parse_in, parse_request,
}
use network_lirbary.Protocol.Http.Text.{content_length}
use network_lirbary.Protocol.Http.Text.Lines.{
  Spaceless, Plain-append, Spaceless-Plain, read_words_lem,
}
use network_lirbary.Protocol.Http.Text.Numerals.{decimal-Plain}
use network_lirbary.Protocol.Http.Resume.{bytes_source, some_injective}
use network_lirbary.Protocol.Http.Handler.{crlf}
use network_lirbary.Protocol.Http.Client.{
  post, http_version, host_key, localhost, connection_key, keep_alive, header, headers_of, request,
}
use network_lirbary.Protocol.Http.HeaderLoop.{
  split_line_lem, IsField, AreFields, add_headers, length-header, header_loop, headers_loop_lem,
  headers_end_lem,
}

-- The headers that the server has read.
abbrev pub headers_read : List (Bytes × Bytes) → Bytes → List (Bytes × Bytes)
headers_read fields body = insert connection_key keep_alive (
    insert content_length (decimal 20 (length body))
      (add_headers fields (insert host_key localhost [])))

headers_read-length :
    (fields : List (Bytes × Bytes)) (body : Bytes)
    → lookup content_length (headers_read fields body) ≡ some (decimal 20 (length body))
unfolding bytes_eq
headers_read-length fields body =
    let before = add_headers fields (insert host_key localhost []) in
    let size = decimal 20 (length body) in
    lookup-insert connection_key content_length keep_alive (insert content_length size before)
    ∙ lookup-insert content_length content_length size before

abbrev pub request_read : Bytes → List (Bytes × Bytes) → Bytes → HttpContext
request_read path fields body = record {
  state = done;
  method = post;
  path = path;
  version = http_version;
  headers = headers_read fields body;
  body = body;
}

-- The bytes behind the request line.
abbrev sent_headers : List (Bytes × Bytes) → Bytes → Bytes → Bytes
sent_headers fields body rest =
    header host_key localhost
    ++ (headers_of fields
        ++ (header content_length (decimal 20 (length body))
            ++ (header connection_key keep_alive ++ (crlf ++ (body ++ rest)))))

host-IsField : IsField host_key localhost
host-IsField = ground arith

length-IsField : (n : ℕ) → IsField content_length (decimal 20 n)
length-IsField n = record {
  colonless = ground arith;
  plain_key = ground arith;
  plain_value = decimal-Plain n;
}

connection-IsField : IsField connection_key keep_alive
connection-IsField = ground arith

sent_loop :
    (fuel : ℕ) (c : HttpContext) (fields : List (Bytes × Bytes)) (body rest : Bytes)
    → AreFields fields
    → length body < 2 ^ 31
    → length (sent_headers fields body rest) < fuel
    → headers_loop bytes_source fuel (record c { headers = [] }) (sent_headers fields body rest)
      ≡ some (
          complete
            (record c { state = done; headers = headers_read fields body; body = body })
            rest)
sent_loop fuel c fields body rest p small room =
    let size : Bytes = decimal 20 (length body) in
    let z4 : Bytes = crlf ++ (body ++ rest) in
    let z3 : Bytes = header connection_key keep_alive ++ z4 in
    let z2 : Bytes = header content_length size ++ z3 in
    let z1 : Bytes = headers_of fields ++ z2 in
    let r1 : length z1 < fuel = omega (arith, length-header host_key localhost z1) in
    let r2 : length z2 < fuel = omega (arith, length-append (headers_of fields) z2) in
    let r3 : length z3 < fuel = omega (arith, length-header content_length size z3) in
    let r4 : length z4 < fuel = omega (arith, length-header connection_key keep_alive z4) in
    let h1 = insert host_key localhost [] in
    let h2 = add_headers fields h1 in
    header_loop fuel (record c { headers = [] }) host_key localhost z1 host-IsField room
    ∙ headers_loop_lem fuel (record c { headers = h1 }) fields z2 p r1
    ∙ header_loop fuel (record c { headers = h2 }) content_length size z3
        (length-IsField (length body)) r2
    ∙ header_loop fuel (record c { headers = insert content_length size h2 }) connection_key
        keep_alive z4 connection-IsField r3
    ∙ headers_end_lem fuel (record c { headers = headers_read fields body }) body rest small
        (headers_read-length fields body) r4

abbrev IsPath : Bytes → Type 0
IsPath path = Spaceless path × (path ≢ [])

abbrev first_line : Bytes → Bytes
first_line path = post ++ 32 ∷ (path ++ 32 ∷ http_version)

request-join :
    (path : Bytes) (fields : List (Bytes × Bytes)) (body rest : Bytes)
    → request path fields body ++ rest ≡ first_line path ++ (crlf ++ sent_headers fields body rest)
unfolding request
request-join path fields body rest = simp append_assoc

abbrev named : Bytes → HttpContext
named path = record {
  state = expect_headers;
  method = post;
  path = path;
  version = http_version;
  headers = [];
  body = [];
}

first_line-Plain : (path : Bytes) → Spaceless path → Plain (first_line path)
first_line-Plain path p =
    Plain-append post (32 ∷ (path ++ 32 ∷ http_version)) (ground arith)
      (refl, Plain-append path (32 ∷ http_version) (Spaceless-Plain path p) (ground arith))

-- What the client of http_protocol.h writes for a path, fields and a body is read back by the
-- server's parser, whatever comes behind it: the request is complete, its method is POST, its
-- path and body are those that were sent, its headers are Host, the fields, Content-Length and
-- Connection, and `rest` is left. The path is not empty and holds no space; the fields' keys hold
-- no colon and neither keys nor values a carriage return; the body is shorter than 2^31.
pub parse_request-request :
    (fuel : ℕ) (path : Bytes) (fields : List (Bytes × Bytes)) (body rest : Bytes)
    → IsPath path
    → AreFields fields
    → length body < 2 ^ 31
    → length (request path fields body ++ rest) < fuel
    → parse_request bytes_source fuel new_context (request path fields body ++ rest)
      ≡ some (complete (request_read path fields body) rest)
unfolding parse_request parse_in request_line
parse_request-request fuel path fields body rest hp hf small room =
    rw
      (
        request-join path fields body rest,
        split_line_lem (first_line path) (sent_headers fields body rest)
            (first_line-Plain path hp.0),
        parse_in,
        read_words_lem ([], [], []) post path http_version (ground arith) hp (ground arith),
      )
      (sent_loop fuel (named path) fields body rest hf small (
        omega (
          arith,
          ap length (request-join path fields body rest),
          length-append (first_line path) (crlf ++ sent_headers fields body rest),
        )))

-- The request of the client, cut into pieces in any way, arrives: the parser, called on each
-- piece behind what it has left, comes to a complete request with what was sent, and nothing is
-- left in the buffer. The buffer is valid and holds nothing before; its indices stay below 2^63
-- and `fuel` exceeds them. The conditions on path, fields and body are those of the parser's
-- round trip.
pub feed-request :
    (fuel : ℕ) (path : Bytes) (fields : List (Bytes × Bytes)) (body : Bytes) (b : Buffer)
    (ys : Bytes) (yss : List Bytes)
    → IsPath path
    → AreFields fields
    → length body < 2 ^ 31
    → Queued b []
    → b.writer_index + length (concat (ys ∷ yss)) < 2 ^ 63
    → b.writer_index + length (concat (ys ∷ yss)) < fuel
    → concat (ys ∷ yss) ≡ request path fields body
    → (p : Parsed Buffer) × (feed fuel (incomplete new_context b) (ys ∷ yss) ≡ some p)
      × (seen p ≡ complete (request_read path fields body) [])
unfolding Meets
feed-request fuel path fields body b ys yss hp hf small q room enough whole =
    let (p, v, e, r, s) = feed-verdict fuel new_context b ys yss q.valid room enough in
    let sum = ap length whole in
    let parsed =
      parse_request-request fuel path fields body [] hp hf small
        (omega (arith, length-append (request path fields body) [])) in
    let all : contents b ++ concat (ys ∷ yss) ≡ request path fields body ++ [] =
      ap₂ ◌++◌ q.holds whole ∙ sym (append-nil (request path fields body)) in
    let agree : Path (Option (Parsed Bytes)) (some v)
        (some (complete (request_read path fields body) [])) =
      sym r ∙ ap (parse_request bytes_source fuel new_context) all ∙ parsed in
    (p, e, s ∙ ap verdict (some_injective v _ agree))
