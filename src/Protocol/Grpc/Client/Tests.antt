-- ===== src/Protocol/Grpc/Client/Tests.antt =====
-- The server's settings, and two messages.
use network_lirbary.Common.{ℕ, suc, ◌≡◌, refl, List, [], ◌∷◌, Option, some, Bytes, arith, replicate}
use network_lirbary.Common.Text.{codes}
use network_lirbary.Memory.Buffer.Contents.{Queued}
use network_lirbary.Memory.Buffer.{Buffer}
use network_lirbary.Protocol.Grpc.Client.Delivery.{
  Reply, settings_sent, message_sent, answered_all, on_data_received-answers,
}
use network_lirbary.Protocol.Grpc.Client.{on_data_received}
use network_lirbary.Protocol.Grpc.Handler.Delivery.{IsFresh}
use network_lirbary.Protocol.Grpc.{encode}
use network_lirbary.Protocol.Host.{stop}
use network_lirbary.Protocol.Http2.{write_header}
use network_lirbary.Protocol.Tests.{host, start}

abbrev fresh : Buffer
fresh = record { store = replicate 8 0; reader_index = 0; writer_index = 0 }

fresh-IsFresh : IsFresh fresh
fresh-IsFresh = record {
  empty = record {
    valid = record { ordered = omega arith; inside = omega arith; small = omega arith };
    holds = refl;
  };
  low = omega arith;
}

-- The message handler counts.
abbrev counter : Option (ℕ → Bytes → ℕ)
counter = some (λ n m. suc n)

abbrev replies : List Reply
replies = settings_sent ∷ message_sent 1 (codes "hi") ∷ message_sent 1 [] ∷ []

-- The frames, and the beginning of another.
abbrev bytes : Bytes
bytes =
    0 ∷ 0 ∷ 0 ∷ 4 ∷ 0 ∷ 0 ∷ 0 ∷ 0 ∷ 0 ∷ 0 ∷ 0 ∷ 7 ∷ 0 ∷ 0 ∷ 0 ∷ 0 ∷ 0 ∷ 1 ∷ 0 ∷ 0 ∷ 0 ∷ 0 ∷ 2 ∷ b'h'
    ∷ b'i' ∷ 0 ∷ 0 ∷ 5 ∷ 0 ∷ 0 ∷ 0 ∷ 0 ∷ 0 ∷ 1 ∷ 0 ∷ 0 ∷ 0 ∷ 0 ∷ 0 ∷ 9 ∷ []

on_data_received-answers_example :
    (b : Buffer) × (on_data_received host counter fresh 4 (start bytes)
      ≡ some (
          stop (record {
            input = b;
            app = answered_all host counter fresh fresh-IsFresh (start bytes).app replies;
          })))
    × Queued b (9 ∷ [])
unfolding write_header encode
on_data_received-answers_example =
    on_data_received-answers host counter fresh fresh-IsFresh replies (start bytes) (9 ∷ []) 4
      (record { ordered = omega arith; inside = omega arith; small = omega arith }) refl
      (tt, ((omega arith, omega arith), ((omega arith, omega arith), tt))) (omega arith)
      (omega arith)
