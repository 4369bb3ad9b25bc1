-- ===== src/Protocol/Tests.antt =====
-- A host whose envelopes are their bytes, which answers "ab" and counts the messages.
use network_lirbary.Common.{
  Option, ℕ, suc, ◌≡◌, refl, inl, true, false, List, [], ◌∷◌, none, some, length, Bytes, arith,
}
use network_lirbary.Memory.Buffer.{Buffer}
use network_lirbary.Memory.Buffer.Contents.{IsValid, Queued}
use network_lirbary.Protocol.Host.{Host, Handled, App, Handling, stop}
use network_lirbary.Protocol.Framing.{frame, process_all}
use network_lirbary.Protocol.Tcp as Tcp
use network_lirbary.Protocol.Tcp.Delivery.{on_message_delivers}
use network_lirbary.Protocol.Client.Delivery.{Delivers, on_data-Delivers}
use network_lirbary.Protocol.Client.{on_data_tcp, on_data_rpc}
use network_lirbary.Protocol.Rpc as Rpc
use network_lirbary.Protocol.Rpc.Delivery.{on_message_delivers_rpc}
use network_lirbary.Protocol.Rpc.Stall.{on_message_stalls}

abbrev pub answer : ℕ → Bytes → Bytes → Handled ℕ Bytes
answer n req resp = record {
  world = suc n;
  response = b'a' ∷ b'b' ∷ [];
  requests = [];
  throws = false;
}

abbrev pub host : Host
host = record {
  World = ℕ;
  Envelope = Bytes;
  empty = [];
  parse = λ bs. some bs;
  serialize = λ e. e;
  has_header = λ e. false;
  has_payload = λ e. true;
  message_id = λ e. [];
  message_type = λ e. [];
  correlation_id = λ e. [];
  payload_data = λ e. e;
  set_message_id = λ e v. e;
  set_message_type = λ e v. e;
  set_correlation_id = λ e v. e;
  set_payload_data = λ e v. v;
  copy_payload = λ e from. from;
  set_protocol_version = λ e v. e;
  set_metadata = λ e k v. e;
  metadata_fields = λ e. [];
  check_rate_limit = λ w. (true, w);
  stream_handler = some answer;
  raw_handler = none;
}

-- "hi", "" and the beginning of a third frame.
abbrev bytes : Bytes
bytes = 0 ∷ 0 ∷ 0 ∷ 2 ∷ b'h' ∷ b'i' ∷ 0 ∷ 0 ∷ 0 ∷ 0 ∷ 0 ∷ []

abbrev messages : List Bytes
messages = (b'h' ∷ b'i' ∷ []) ∷ [] ∷ []

abbrev pub buffer_of : Bytes → Buffer
buffer_of bs = record { store = bs; reader_index = 0; writer_index = length bs }

abbrev pub start : Bytes → Handling ℕ
start bs = record { input = buffer_of bs; app = record { world = 0; calls = [] } }

bytes-IsValid : IsValid (buffer_of bytes)
bytes-IsValid = record { ordered = omega arith; inside = omega arith; small = omega arith }

on_message_delivers_example :
    (b : Buffer) × (Tcp.on_message host 3 (start bytes)
      ≡ some (
          stop (record {
            input = b;
            app = process_all (Tcp.process host) (start bytes).app messages;
          })))
    × Queued b (0 ∷ [])
unfolding frame Tcp.process Tcp.parsed Tcp.handle Tcp.perform_all Tcp.reply
on_message_delivers_example =
    on_message_delivers host (start bytes) messages (0 ∷ []) 3 refl bytes-IsValid refl
      (omega arith, (omega arith, tt)) (inl (omega arith)) (refl, (refl, tt)) (omega arith)

on_message_delivers_rpc_example :
    (b : Buffer) × (Rpc.on_message host 3 (start bytes)
      ≡ some (
          stop (record {
            input = b;
            app = process_all (Rpc.process host) (start bytes).app messages;
          })))
    × Queued b (0 ∷ [])
unfolding frame Rpc.process Rpc.parsed Rpc.handle Rpc.perform_all
on_message_delivers_rpc_example =
    on_message_delivers_rpc host (start bytes) messages (0 ∷ []) 3 bytes-IsValid refl
      (omega arith, (omega arith, tt)) (inl (omega arith)) (refl, (refl, tt)) (omega arith)

handle-quiet : (a : App ℕ) (m : Bytes) → (Rpc.process host a m).1 ≡ false
unfolding Rpc.process Rpc.parsed Rpc.handle
handle-quiet a m = refl

-- The length 2^32 - 4.
abbrev wrapping : Bytes
wrapping = 255 ∷ 255 ∷ 255 ∷ 252 ∷ []

on_message_stalls_example : Rpc.on_message host 1000 (start wrapping) ≡ none
on_message_stalls_example =
    on_message_stalls host (start wrapping) 1000
      (record { ordered = omega arith; inside = omega arith; small = omega arith }) (omega arith)
      refl handle-quiet

-- The message handler of a client counts.
abbrev counter : Option (ℕ → Bytes → ℕ)
counter = some (λ n msg. suc n)

on_data-Delivers_example :
    Delivers host counter
      (on_data_tcp host counter 3 (start bytes))
      (start bytes).app
      messages
      (0 ∷ [])
    × Delivers host counter
        (on_data_rpc host counter 3 (start bytes))
        (start bytes).app
        messages
        (0 ∷ [])
unfolding frame
on_data-Delivers_example =
    on_data-Delivers host counter (start bytes) messages (0 ∷ []) 3 bytes-IsValid refl
      (omega arith, (omega arith, tt)) (inl (omega arith)) (omega arith)
