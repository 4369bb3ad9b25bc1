-- ===== src/Protocol/Udp/Tests.antt =====
-- A datagram from 10.0.0.1, port 5000, for a host that answers "ab".
use network_lirbary.Common.{
  ℕ, ◌+◌, ◌*◌, ◌/◌, ◌%◌, ◌^◌, ◌≡◌, ap, [], ◌∷◌, ◌++◌, map, Option, none, some, Bytes, arith,
}
use network_lirbary.Common.Text.{codes}
use network_lirbary.Protocol.Tests.{host}
use network_lirbary.Protocol.Udp.Replies.{datagram, replies, on_packet-replies}
use network_lirbary.Protocol.Udp.{Address, Inet, Serving, received, on_packet}

-- Four bytes stand for the text of an address.
abbrev text : ℕ → Bytes
text a = (a / 2 ^ 24 % 256) ∷ (a / 2 ^ 16 % 256) ∷ (a / 2 ^ 8 % 256) ∷ (a % 256) ∷ []

abbrev of_text : Bytes → Option ℕ
of_text (a ∷ b ∷ c ∷ d ∷ []) = some (a * 2 ^ 24 + b * 2 ^ 16 + c * 2 ^ 8 + d)
of_text _ = none

abbrev inet : Inet
inet = record {
  ntop = text;
  pton = of_text;
  uninitialised = 7;
  pton_back = λ a p. ap some (omega arith);
}

-- The bytes of the port stand in network order.
abbrev from : Address
from = record { addr = 167772161; port = 34835 }

abbrev serving : Serving ℕ
serving = record { world = 0; sent = [] }

on_packet-replies_example :
    (on_packet host inet (received inet from (codes "hi")) serving).sent
    ≡ [] ++ map (datagram from) (replies host inet 0 (codes "hi"))
on_packet-replies_example =
    on_packet-replies host inet from (codes "hi") serving (omega arith) (omega arith)
