-- ===== src/Protocol/Http/Tests.antt =====
-- Concrete requests for HTTP.
use network_lirbary.Common.{ℕ, ◌≡◌, refl, false, List, [], ◌∷◌, some, Bytes, arith, take, drop}
use network_lirbary.Memory.Buffer.{
  Buffer, append, find_crlf, search_crlf, peek, readable_bytes, retrieve, retrieve_all,
}
use network_lirbary.Memory.Buffer.Contents.{IsValid}
use network_lirbary.Protocol.Host.{App}
use network_lirbary.Protocol.Tests.{host, buffer_of}
use network_lirbary.Protocol.Client.{decimal}
use network_lirbary.Protocol.Http.{
  HttpContext, new_context, Parsed, incomplete, complete, parse_request, done, parse_in,
  headers_loop, headers_end, request_line, line_of_buffer,
}
use network_lirbary.Protocol.Http.Text.{read_words, read_word, word, skip_spaces}
use network_lirbary.Common.Dict.{lookup}
use network_lirbary.Protocol.Http.Client.{request}
use network_lirbary.Protocol.Http.Handler.{on_message, answer}
use network_lirbary.Protocol.Http.Resume.{bytes_source}
use network_lirbary.Protocol.Http.Fragments.{feed, feed-verdict, Meets, seen}
use network_lirbary.Protocol.Http.RoundTrip.{feed-request, request_read}
use network_lirbary.Protocol.Http.Replay.{on_message-replays}

-- "GET /x HTTP/1.1" and the empty line.
abbrev get_request : Bytes
get_request =
    b'G' ∷ b'E' ∷ b'T' ∷ 32 ∷ b'/' ∷ b'x' ∷ 32 ∷ b'H' ∷ b'T' ∷ b'T' ∷ b'P' ∷ b'/' ∷ b'1' ∷ b'.'
    ∷ b'1' ∷ 13 ∷ 10 ∷ 13 ∷ 10 ∷ []

abbrev nothing : Buffer
nothing = buffer_of []

nothing-IsValid : IsValid nothing
nothing-IsValid = record { ordered = omega arith; inside = omega arith; small = omega arith }

abbrev body : Bytes
body = b'h' ∷ b'i' ∷ []

abbrev fields : List (Bytes × Bytes)
fields = (b'k' ∷ [], b'v' ∷ []) ∷ []

abbrev path : Bytes
path = b'/' ∷ b'a' ∷ []

feed-verdict_example :
    Meets
      (feed 1000 (incomplete new_context nothing) (take 7 get_request ∷ drop 7 get_request ∷ []))
      (parse_request bytes_source 1000 new_context get_request)
feed-verdict_example =
    feed-verdict 1000 new_context nothing (take 7 get_request) (drop 7 get_request ∷ [])
      nothing-IsValid (omega arith) (omega arith)

feed-request_example :
    (p : Parsed Buffer) × (feed 1000
        (incomplete new_context nothing)
        (take 20 (request path fields body) ∷ drop 20 (request path fields body) ∷ [])
      ≡ some p)
    × (seen p ≡ complete (request_read path fields body) [])
unfolding request decimal
feed-request_example =
    feed-request 1000 path fields body nothing (take 20 (request path fields body))
      (drop 20 (request path fields body) ∷ []) (ground arith) (ground arith) (omega arith)
      (record { valid = nothing-IsValid; holds = refl }) (omega arith) (omega arith) refl

abbrev got : HttpContext
got = record {
  state = done;
  method = b'G' ∷ b'E' ∷ b'T' ∷ [];
  path = b'/' ∷ b'x' ∷ [];
  version = b'H' ∷ b'T' ∷ b'T' ∷ b'P' ∷ b'/' ∷ b'1' ∷ b'.' ∷ b'1' ∷ [];
  headers = [];
  body = [];
}

abbrev app : App ℕ
app = record { world = 0; calls = [] }

abbrev after : Buffer
after = record { store = get_request; reader_index = 0; writer_index = 0 }

on_message-replays_example :
    (on_message host 5 (record { input = buffer_of get_request; context = new_context; app = app })
      ≡ some (record { input = after; context = got; app = answer host app got }, false))
    × (on_message host 5
          (record { input = append after get_request; context = got; app = answer host app got })
        ≡ some (
          record {
            input = append after get_request;
            context = got;
            app = answer host (answer host app got) got;
          },
          false,
        ))
unfolding parse_request parse_in headers_loop headers_end request_line read_words read_word word
    skip_spaces line_of_buffer find_crlf search_crlf peek readable_bytes retrieve retrieve_all
    lookup
on_message-replays_example =
    on_message-replays host 5 5
      (record { input = buffer_of get_request; context = new_context; app = app }) got after
      get_request refl
