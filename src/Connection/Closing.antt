-- ===== src/Connection/Closing.antt =====
-- A connection's descriptor is closed once, whatever the loop, the peer and the application do.
pub mod Counting
mod Operations
use network_lirbary.Common.{
  ℕ, zero, suc, ◌+◌, ◌≤◌, ◌≡◌, refl, sym, ◌∙◌, ap, inl, inr, Bool, true, false, ◌&&◌, not,
  Bool-cases, Option-cases, length, ltb, if◌then◌else◌, ◌==◌, subst, List, [], ◌∷◌, ◌++◌, Option,
  none, some, Bytes, arith,
}
use network_lirbary.Memory.Buffer.{Buffer, readable_bytes, peek, append}
use network_lirbary.Connection.Sockets.{
  Io, ReadResult, got, end_of_file, WriteResult, wrote, HandshakeResult, ConnectResult, immediate,
  in_progress, refused,
}
use network_lirbary.Connection.{
  Connection, State, Effect, modify_fd, remove_fd, close_fd, shutdown_write, connect_callback,
  disconnect_callback, run_in_loop, Flush, go_on, break, leave, handle_close, handle_error,
  report_failure, force_close, shutdown, destroy, notify_output, after_read, read_loop, read_open,
  after_handshake, handle_handshake, handle_read_in, handle_read, set_ssl, after_write, write_done,
  write_loop, handle_write_in, handle_write, after_direct_write, send_in_loop, send, after_connect,
  connect_to, is_disconnected, is_connected, is_connecting, close_effects, after_step, established,
}
use Counting.{
  closes, open_fd, handles, from_some, Keeps, handle_close-handles, handle_error-handles,
  shutdown-handles, destroyed,
}
use Operations.{
  handle_read_in-handles, handle_write_in-handles, handshake-handles, after_connect-handles,
  send-handles,
}

-- What the application may ask of a connection in its message callback.
pub data Request : Type 0 where
  sends : Bool → Bytes → Request
  shuts force_closes : Request

-- The message callback: it takes what it wants from the input buffer and calls the connection.
pub record Reaction (World : Type 0) : Type 0 where
  pub rest : Buffer
  pub world : World
  pub requests : List Request

-- What the loop, the peer and the application may do to a connection.
pub data Event : Type 0 where
  readable writable closed failed destroyed_now tls : Event
  asked : Request → Event
  connects : Bool → Event

module _ (io : Io) where
  open io use {World, connect}

  unfoldable pub ask : Connection World → Request → Connection World
  ask c (sends in_loop bytes) = send io in_loop c bytes
  ask c shuts = shutdown c
  ask c force_closes = force_close c

  unfoldable pub ask_all : Connection World → List Request → Connection World
  ask_all c [] = c
  ask_all c (r ∷ rs) = ask_all (ask c r) rs

  unfoldable pub callback :
      (Connection World → Reaction World) → Connection World → Connection World
  callback react c =
      let r = react c in ask_all (record c { input = r.rest; world = r.world }) r.requests

  ask-handles : (c : Connection World) (r : Request) → handles (ask c r) ≡ handles c
  unfolding ask force_close
  ask-handles c (sends in_loop bytes) = send-handles io (λ c'. c') (λ c'. refl) in_loop c bytes
  ask-handles c shuts = shutdown-handles c
  ask-handles c force_closes = handle_close-handles c

  ask_all-handles : (c : Connection World) (rs : List Request) → handles (ask_all c rs) ≡ handles c
  unfolding ask_all
  ask_all-handles c [] = refl
  ask_all-handles c (r ∷ rs) = ask_all-handles (ask c r) rs ∙ ask-handles c r

  callback-handles :
      (react : Connection World → Reaction World) (c : Connection World)
      → handles (callback react c) ≡ handles c
  unfolding callback
  callback-handles react c = ask_all-handles _ (react c).requests

module _ (io : Io) (react : Connection io.World → Reaction io.World) where
  open io use {World, connect}

  unfoldable pub step : ℕ → Connection World → Event → Option (Connection World)
  step fuel c readable = handle_read io (callback io react) fuel c
  step fuel c writable = handle_write io (callback io react) fuel c
  step fuel c closed = some (handle_close c)
  step fuel c failed = some (handle_error c)
  step fuel c destroyed_now = some (destroy c)
  step fuel c tls = set_ssl io (callback io react) fuel c
  step fuel c (asked r) = some (ask io c r)
  step fuel c (connects valid) = some (connect_to io valid c).0

  step-handles : (fuel : ℕ) (c : Connection World) (e : Event) → Keeps (handles c) (step fuel c e)
  unfolding step handle_read handle_write set_ssl connect_to
  step-handles fuel c readable =
      handle_read_in-handles io (callback io react) (callback-handles io react) c.state fuel c
  step-handles fuel c writable =
      handle_write_in-handles io (callback io react) (callback-handles io react) c.state fuel c
  step-handles fuel c closed = handle_close-handles c
  step-handles fuel c failed = handle_error-handles c
  step-handles fuel c destroyed_now = (destroyed c.fd c refl).0
  step-handles fuel c tls =
      handshake-handles io (callback io react) (callback-handles io react) fuel
        (record c { ssl = true; state = State.handshaking })
  step-handles fuel c (asked r) = ask-handles io c r
  step-handles fuel c (connects true) =
      after_connect-handles io (callback io react) (callback-handles io react) c (connect c.world)
  step-handles fuel c (connects false) = refl

  unfoldable pub run : ℕ → Connection World → List Event → Option (Connection World)
  run fuel c [] = some c
  run fuel c (e ∷ es) = elim (step fuel c e) [ none ↦ none | some c' ↦ run fuel c' es ]

  continue :
      (k : ℕ) (o : Option (Connection World))
      → Keeps k o
      → (c : Connection World) → o ≡ some c
      → handles c ≡ k
  continue k none h c e = cc
  continue k (some d) h c e = ap (λ o. handles (from_some c o)) (sym e) ∙ h

  run-handles :
      (fuel : ℕ) (c : Connection World) (es : List Event) → Keeps (handles c) (run fuel c es)
  unfolding run
  run-handles fuel c [] = refl
  run-handles fuel c (e ∷ es) = elim (Option-cases (step fuel c e)) [
    | inl out ↦ rw (out, run) tt
    | inr (c', went) ↦
        rw (went, run)
          (subst (λ k. Keeps k (run fuel c' es))
            (continue _ (step fuel c e) (step-handles fuel c e) c' went) (run-handles fuel c' es))
  ]

  -- Start from an open connection whose descriptor nobody closed yet, and let the loop's events,
  -- the peer and the application's requests come in any order, the message callback sending,
  -- shutting down and closing as it likes. After them, the descriptor is either still open and
  -- was never closed, or gone and was closed exactly once; if at the end the object is destroyed,
  -- exactly one close has been made, whatever went before.
  pub run-closes_once :
      (fuel n : ℕ) (c c' : Connection World) (es : List Event)
      → c.fd ≡ some n
      → closes c.effects ≡ 0
      → run fuel c es ≡ some c'
      → (closes c'.effects + open_fd c'.fd ≡ 1) × (closes (destroy c').effects ≡ 1)
  run-closes_once fuel n c c' es opened fresh went =
      let total : handles c' ≡ 1 = omega (
        arith,
        continue (handles c) (run fuel c es) (run-handles fuel c es) c' went,
        fresh,
        ap open_fd opened,
      ) in
      let gone = destroyed c'.fd c' refl in (total, omega (arith, gone.0, total, ap open_fd gone.1))
