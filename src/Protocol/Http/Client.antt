-- ===== src/Protocol/Http/Client.antt =====
-- `HttpClientProtocol::Send` of lib_network/include/network/core/client/protocols/http_protocol.h.
use network_lirbary.Common.{◌==◌, if◌then◌else◌, List, [], ◌∷◌, ◌++◌, length, Bytes}
use network_lirbary.Protocol.Host.{Host, App, calling, send}
use network_lirbary.Protocol.Client.{decimal}
use network_lirbary.Protocol.Http.Text.{content_length}
use network_lirbary.Protocol.Http.Handler.{crlf}

-- POST
abbrev pub post : Bytes
post = b'P' ∷ b'O' ∷ b'S' ∷ b'T' ∷ []

-- HTTP/1.1
abbrev pub http_version : Bytes
http_version = b'H' ∷ b'T' ∷ b'T' ∷ b'P' ∷ b'/' ∷ b'1' ∷ b'.' ∷ b'1' ∷ []

-- Host
abbrev pub host_key : Bytes
host_key = b'H' ∷ b'o' ∷ b's' ∷ b't' ∷ []

-- localhost
abbrev pub localhost : Bytes
localhost = b'l' ∷ b'o' ∷ b'c' ∷ b'a' ∷ b'l' ∷ b'h' ∷ b'o' ∷ b's' ∷ b't' ∷ []

-- Connection
abbrev pub connection_key : Bytes
connection_key = b'C' ∷ b'o' ∷ b'n' ∷ b'n' ∷ b'e' ∷ b'c' ∷ b't' ∷ b'i' ∷ b'o' ∷ b'n' ∷ []

-- keep-alive
abbrev pub keep_alive : Bytes
keep_alive = b'k' ∷ b'e' ∷ b'e' ∷ b'p' ∷ b'-' ∷ b'a' ∷ b'l' ∷ b'i' ∷ b'v' ∷ b'e' ∷ []

abbrev pub header : Bytes → Bytes → Bytes
header key value = key ++ (b':' ∷ 32 ∷ value) ++ crlf

abbrev pub headers_of : List (Bytes × Bytes) → Bytes
headers_of [] = []
headers_of ((k, v) ∷ kvs) = header k v ++ headers_of kvs

-- The request for a path, with the metadata's fields as headers.
unfoldable pub request : Bytes → List (Bytes × Bytes) → Bytes → Bytes
request path fields body =
    (post ++ (32 ∷ path) ++ (32 ∷ http_version) ++ crlf)
    ++ (header host_key localhost
        ++ (headers_of fields
            ++ (header content_length (decimal 20 (length body))
                ++ (header connection_key keep_alive ++ (crlf ++ body)))))

module _ (h : Host) where
  open h use {World, Envelope, has_header, has_payload, message_type, payload_data, metadata_fields}

  pub path_of : Envelope → Bytes
  path_of e =
      if has_header e
      then (if length (message_type e) == 0 then b'/' ∷ [] else message_type e)
      else b'/' ∷ []

  -- `Send`. An envelope without metadata has no fields.
  pub send_http : App World → Envelope → App World
  send_http a e = calling a (
      send (request (path_of e) (metadata_fields e) (if has_payload e then payload_data e else [])))
