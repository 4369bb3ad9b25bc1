-- ===== src/Protocol/Http.antt =====
-- `HttpHandler` of lib_network/src/protocols/http/http_handler.cc: the parser of requests, which
-- keeps its place in a context of the connection, and what the handler answers. The parser reads
-- from a `Source`, which is the connection's buffer in the handler. `throws` is an exception that
-- escapes.
pub mod Text
pub mod Handler
pub mod Client
mod HeaderLoop
pub mod RoundTrip
pub mod Resume
mod Simulation
pub mod Fragments
pub mod Replay
mod Tests
use network_lirbary.Common.{
  ℕ, zero, suc, ◌+◌, Bool, true, false, ◌==◌, ltb, leb, if◌then◌else◌, List, [], ◌∷◌, ◌++◌, Option,
  none, some, length, take, drop, Bytes,
}
use network_lirbary.Common.Dict.{lookup, insert}
use network_lirbary.Memory.Buffer.{Buffer, readable_bytes, peek, retrieve, search_crlf, find_crlf}
use Text.{content_length, read_words, find_colon, pop_carriage_return, to_size}

pub data State : Type 0 where
  expect_request_line expect_headers expect_body done : State

pub record HttpContext : Type 0 where
  pub state : State
  pub method : Bytes
  pub path : Bytes
  pub version : Bytes
  pub headers : List (Bytes × Bytes)
  pub body : Bytes

abbrev pub new_context : HttpContext
new_context = record {
  state = expect_request_line;
  method = [];
  path = [];
  version = [];
  headers = [];
  body = [];
}

-- Where lines and bodies come from: the next line and what is behind its CRLF, and `len` bytes
-- and what is behind them.
pub record Source (B : Type 0) : Type 0 where
  pub next_line : B → Option (Bytes × B)
  pub next_bytes : ℕ → B → Option (Bytes × B)

pub line_of_buffer : Buffer → Option ℕ → Option (Bytes × Buffer)
line_of_buffer b none = none
line_of_buffer b (some k) = some (peek b k, retrieve b (k + 2))

pub bytes_of_buffer : ℕ → Buffer → Option (Bytes × Buffer)
bytes_of_buffer len b =
    if leb len (readable_bytes b) then some (peek b len, retrieve b len) else none

abbrev pub buffer_source : Source Buffer
buffer_source = record {
  next_line = λ b. line_of_buffer b (find_crlf b);
  next_bytes = bytes_of_buffer;
}

-- What `ParseRequest` comes to: false, true, or an exception.
pub data Parsed (B : Type 0) : Type 0 where
  incomplete complete throws : HttpContext → B → Parsed B

-- `iss >> ctx.method >> ctx.path >> ctx.version`.
pub request_line : HttpContext → Bytes → HttpContext
request_line c line =
    let (m, p, v) = read_words (c.method, c.path, c.version) line in
    record c { state = expect_headers; method = m; path = p; version = v }

-- `substr(colon + 2)` throws where the colon is the last character.
pub header_at : HttpContext → Bytes → Option ℕ → Option HttpContext
header_at c line none = some c
header_at c line (some colon) =
    if ltb (length line) (colon + 2)
    then none
    else some (record c {
      headers = insert (take colon line) (pop_carriage_return (drop (colon + 2) line)) c.headers;
    })

-- A header line that is not empty.
pub header_line : HttpContext → Bytes → Option HttpContext
header_line c line = header_at c line (find_colon line)

abbrev pub value_or_empty : Option Bytes → Bytes
value_or_empty none = []
value_or_empty (some v) = v

module _ {B : Type 0} (source : Source B) where
  open source use {next_line, next_bytes}

  -- The body, once its length is read; `none` is an exception of `std::stoi`.
  pub body_of_size : HttpContext → B → Option ℕ → Parsed B
  body_of_size c b none = throws c b
  body_of_size c b (some len) = elim (next_bytes len b) [
    | none ↦ incomplete c b
    | some (bytes, b') ↦ complete (record c { state = done; body = bytes }) b'
  ]

  pub parse_body : HttpContext → B → Parsed B
  parse_body c b = body_of_size c b (to_size (value_or_empty (lookup content_length c.headers)))

  -- The empty line.
  pub headers_end : HttpContext → B → Option Bytes → Parsed B
  headers_end c b none = complete (record c { state = done }) b
  headers_end c b (some v) = parse_body (record c { state = expect_body }) b

  -- `while (true)` over the header lines, on fuel.
  pub headers_loop : ℕ → HttpContext → B → Option (Parsed B)
  headers_loop zero c b = none
  headers_loop (suc fuel) c b = elim (next_line b) [
    | none ↦ some (incomplete c b)
    | some ([], b') ↦ some (headers_end c b' (lookup content_length c.headers))
    | some (x ∷ xs, b') ↦ elim (header_line c (x ∷ xs)) [
      | none ↦ some (throws c b')
      | some c' ↦ headers_loop fuel c' b'
    ]
  ]

  pub parse_in : State → ℕ → HttpContext → B → Option (Parsed B)
  parse_in expect_request_line fuel c b = elim (next_line b) [
    | none ↦ some (incomplete c b)
    | some (line, b') ↦ headers_loop fuel (request_line c line) b'
  ]
  parse_in expect_headers fuel c b = headers_loop fuel c b
  parse_in expect_body fuel c b = some (parse_body c b)
  parse_in done fuel c b = some (complete c b)

  -- `ParseRequest`, on fuel for its loop.
  pub parse_request : ℕ → HttpContext → B → Option (Parsed B)
  parse_request fuel c b = parse_in c.state fuel c b
