-- ===== src/Connection/Closing/Counting.antt =====
-- How many descriptors are closed, and what the calls without input or output add to that.
use network_lirbary.Common.{
  ℕ, suc, ◌+◌, ◌≡◌, refl, ◌∙◌, ap, inl, inr, Bool, true, false, ◌&&◌, Bool-cases, ltb,
  if◌then◌else◌, ◌==◌, List, [], ◌∷◌, ◌++◌, Option, none, some, arith,
}
use network_lirbary.Memory.Buffer.{readable_bytes}
use network_lirbary.Connection.{
  Connection, Effect, modify_fd, remove_fd, close_fd, shutdown_write, connect_callback,
  disconnect_callback, run_in_loop, handle_close, handle_error, report_failure, shutdown, destroy,
  notify_output, is_disconnected, is_connected, is_connecting, close_effects,
}

-- How often a descriptor has been closed.
unfoldable pub closes : List Effect → ℕ
closes [] = 0
closes (close_fd n ∷ es) = suc (closes es)
closes (_ ∷ es) = closes es

abbrev pub open_fd : Option ℕ → ℕ
open_fd none = 0
open_fd (some n) = 1

closes-append : (es fs : List Effect) → closes (es ++ fs) ≡ closes es + closes fs
unfolding closes
closes-append [] fs = omega arith
closes-append (modify_fd f o ∷ es) fs = closes-append es fs
closes-append (remove_fd f ∷ es) fs = closes-append es fs
closes-append (close_fd n ∷ es) fs = omega (arith, closes-append es fs)
closes-append (shutdown_write f ∷ es) fs = closes-append es fs
closes-append (connect_callback b ∷ es) fs = closes-append es fs
closes-append (disconnect_callback ∷ es) fs = closes-append es fs
closes-append (run_in_loop bs ∷ es) fs = closes-append es fs

-- Closings so far, and the one still to come.
abbrev pub handles : {World : Type 0} → Connection World → ℕ
handles c = closes c.effects + open_fd c.fd

closes-closing :
    (fd : Option ℕ) (callback : Bool)
    → closes (close_effects fd ++ (if callback then disconnect_callback ∷ [] else [])) ≡ open_fd fd
unfolding closes
closes-closing none true = refl
closes-closing none false = refl
closes-closing (some n) true = refl
closes-closing (some n) false = refl

-- An effect that closes nothing.
pub closes-harmless :
    (es : List Effect) (e : Effect) → closes (e ∷ []) ≡ 0 → closes (es ++ e ∷ []) ≡ closes es
closes-harmless es e h = omega (arith, closes-append es (e ∷ []))

pub closes-optional :
    (es : List Effect) (e : Effect) (test : Bool)
    → closes (e ∷ []) ≡ 0
    → closes (es ++ (if test then e ∷ [] else [])) ≡ closes es
unfolding closes
closes-optional es e true h = closes-harmless es e h
closes-optional es e false h = omega (arith, closes-append es [])

-- What a loop leaves, if it ends.
abbrev pub from_some {ℓ} : {A : Type ℓ} → A → Option A → A
from_some a none = a
from_some a (some b) = b

abbrev pub Keeps : {World : Type 0} → ℕ → Option (Connection World) → Type 0
Keeps k none = Unit {0}
Keeps k (some c) = handles c ≡ k

module _ {World : Type 0} where
  pub handle_close-handles : (c : Connection World) → handles (handle_close c) ≡ handles c
  unfolding handle_close
  handle_close-handles c = elim (Bool-cases (is_disconnected c.state)) [
    | inl e ↦ rw e
    | inr e ↦ rw e (
        omega (
          arith,
          closes-append c.effects (
              close_effects c.fd
              ++ (if c.has_disconnect_callback then disconnect_callback ∷ [] else [])),
          closes-closing c.fd c.has_disconnect_callback,
        ))
  ]

  pub handle_error-handles : (c : Connection World) → handles (handle_error c) ≡ handles c
  unfolding handle_error report_failure closes
  handle_error-handles c = elim (Bool-cases (is_disconnected c.state)) [
    | inl e ↦ rw e
    | inr e ↦ rw e (
        handle_close-handles (report_failure c)
        ∙ ap (λ k. k + open_fd c.fd)
            (closes-optional c.effects (connect_callback false)
              (is_connecting c.state && c.has_connect_callback) refl))
  ]

  pub shutdown-handles : (c : Connection World) → handles (shutdown c) ≡ handles c
  unfolding shutdown closes
  shutdown-handles c = elim (Bool-cases (is_connected c.state)) [
    | inl e ↦ rw e (
        ap (λ k. k + open_fd c.fd)
          (closes-optional c.effects (shutdown_write c.fd) (readable_bytes c.output == 0) refl))
    | inr e ↦ rw e
  ]

  pub notify_output-handles : (c : Connection World) → handles (notify_output c) ≡ handles c
  unfolding notify_output closes
  notify_output-handles c = elim (Bool-cases (ltb 0 (readable_bytes c.output))) [
    | inl e ↦
        rw e (ap (λ k. k + open_fd c.fd) (closes-harmless c.effects (modify_fd c.fd true) refl))
    | inr e ↦ rw e
  ]

  pub destroyed :
      (fd : Option ℕ) (c : Connection World)
      → c.fd ≡ fd
      → (handles (destroy c) ≡ handles c) × ((destroy c).fd ≡ none)
  unfolding destroy closes
  destroyed none c e = rw (e, destroy) (ap (λ f. closes c.effects + open_fd f) e, e)
  destroyed (some n) c e =
      rw (e, destroy) (omega (arith, closes-append c.effects (close_fd n ∷ [])), refl)
