-- ===== src/Protocol/Host.antt =====
-- What a protocol handler works with: the application's callbacks, the generated `StreamEnvelope`
-- class, the rate limiter, and the calls that it makes on its connection. `ProtocolHandler` of
-- lib_network/include/network/protocols/protocol_handler.h, and detail/interfaces.h.
use network_lirbary.Common.{ℕ, zero, suc, ◌≡◌, Bool, List, [], ◌∷◌, ◌++◌, Option, none, some, Bytes}
use network_lirbary.Memory.Buffer.{Buffer}

-- `IStreamContext`: what the application asks of the context it is given.
pub data ContextCall (Envelope : Type 0) : Type 0 where
  write_envelope : Envelope → ContextCall Envelope
  write_bytes : Bytes → ContextCall Envelope
  close : ContextCall Envelope

-- What a call of the application's stream handler leaves behind.
pub record Handled (World Envelope : Type 0) : Type 0 where
  pub world : World
  pub response : Envelope
  pub requests : List (ContextCall Envelope)
  pub throws : Bool

-- `stream_envelope.pb.h`, the application's handlers and the rate limiter. `World` is the state
-- that these keep; `parse` and `serialize` are protobuf's.
pub record Host : Type 1 where
  pub World : Type 0
  pub Envelope : Type 0
  pub empty : Envelope
  pub parse : Bytes → Option Envelope
  pub serialize : Envelope → Bytes
  pub has_header : Envelope → Bool
  pub has_payload : Envelope → Bool
  pub message_id : Envelope → Bytes
  pub message_type : Envelope → Bytes
  pub correlation_id : Envelope → Bytes
  pub payload_data : Envelope → Bytes
  pub set_message_id : Envelope → Bytes → Envelope
  pub set_message_type : Envelope → Bytes → Envelope
  pub set_correlation_id : Envelope → Bytes → Envelope
  pub set_payload_data : Envelope → Bytes → Envelope
  pub copy_payload : Envelope → Envelope → Envelope
  pub set_protocol_version : Envelope → Bytes → Envelope
  pub set_metadata : Envelope → Bytes → Bytes → Envelope
  pub metadata_fields : Envelope → List (Bytes × Bytes)
  pub check_rate_limit : World → Bool × World
  pub stream_handler : Option (World → Envelope → Envelope → Handled World Envelope)
  pub raw_handler : Option (World → Bytes → World × List (ContextCall Envelope))

-- The calls on the connection, in order.
pub data ConnectionCall : Type 0 where
  send : Bytes → ConnectionCall
  force_close : ConnectionCall
  shutdown : ConnectionCall

-- The application's state and the calls made so far.
pub record App (World : Type 0) : Type 0 where
  pub world : World
  pub calls : List ConnectionCall

abbrev pub emit {ℓ} : {A : Type ℓ} → List A → A → List A
emit cs c = cs ++ c ∷ []

abbrev pub calling : {World : Type 0} → App World → ConnectionCall → App World
calling a c = record a { calls = emit a.calls c }

-- A handler's state: the connection's input buffer, and the application.
pub record Handling (World : Type 0) : Type 0 where
  pub input : Buffer
  pub app : App World

-- One round of a handler's loop: go round again, leave the loop, or leave by an exception.
pub data Turn (S : Type 0) : Type 0 where
  again : S → Turn S
  stop : S → Turn S
  escape : S → Turn S

-- The loop, on fuel. `none` means that it ran out.
unfoldable pub run_turns : {S : Type 0} → (S → Turn S) → ℕ → S → Option (Turn S)
run_turns turn zero s = none
run_turns turn (suc fuel) s = elim (turn s) [
  | again s' ↦ run_turns turn fuel s'
  | stop s' ↦ some (stop s')
  | escape s' ↦ some (escape s')
]

pub run_turns-again :
    {S : Type 0} (turn : S → Turn S) (fuel : ℕ) (s s' : S)
    → turn s ≡ again s'
    → run_turns turn (suc fuel) s ≡ run_turns turn fuel s'
unfolding run_turns
run_turns-again turn fuel s s' e = rw (e, run_turns)

pub run_turns-stop :
    {S : Type 0} (turn : S → Turn S) (fuel : ℕ) (s s' : S)
    → turn s ≡ stop s'
    → run_turns turn (suc fuel) s ≡ some (stop s')
unfolding run_turns
run_turns-stop turn fuel s s' e = rw (e, run_turns)
