-- ===== src/Event/Listening/Binds.antt =====
-- What the kernel is asked to bind by a registration.
use network_lirbary.Common.Process.{Process}
use network_lirbary.Common.Text.{ℤ}
use network_lirbary.Common.{
  ℕ, ◌≡◌, ap, Bool, true, false, List, [], ◌∷◌, ◌++◌, Option, none, some, arith,
}
use network_lirbary.Event.Listening.{
  System, open_socket, close_fd, set_nonblocking, set_option, bind_port, listen_on, watch,
  create_nonblocking, create_datagram, register_server, register_udp_server, init_loop,
  create_poller, open_eventfd, after, answered, closing, to_port, asked_to_bind,
}

-- A success has bound the descriptor that it answers to the port, and nothing else.
abbrev pub HasBound : {World : Type 0} → List (ℕ × ℕ) → ℤ → Option ℕ × Process World → Type 0
HasBound before port (none, p) = Unit
HasBound before port (some fd, p) = p.binds ≡ before ++ (fd, to_port port) ∷ []

module _ (system : System) where
  open system use {World, bind, listen, add_fd}

  create_nonblocking-binds : (p : Process World) → (create_nonblocking system p).1.binds ≡ p.binds
  unfolding create_nonblocking open_socket close_fd set_nonblocking set_option
  create_nonblocking-binds p = ground arith

  create_datagram-binds : (p : Process World) → (create_datagram system p).1.binds ≡ p.binds
  unfolding create_datagram open_socket set_option
  create_datagram-binds p = ground arith

  pub init_loop-binds : (p : Process World) → (init_loop system p).1.binds ≡ p.binds
  unfolding init_loop create_poller open_eventfd watch
  init_loop-binds p = ground arith

  after-HasBound :
      (before : List (ℕ × ℕ)) (port : ℤ) (m : Option ℕ × Process World)
      (f : ℕ → Process World → Option ℕ × Process World)
      → m.1.binds ≡ before
      → ((fd : ℕ) (q : Process World) → q.binds ≡ before → HasBound before port (f fd q))
      → HasBound before port (after system m f)
  after-HasBound before port (none, q) f e k = tt
  after-HasBound before port (some fd, q) f e k = k fd q e

  checked-HasBound :
      (before : List (ℕ × ℕ)) (port : ℤ) (fd : ℕ) (q : Process World) (r : Bool × World)
      (f : ℕ → Process World → Option ℕ × Process World)
      → ((w : World) → HasBound before port (f fd (record q { world = w })))
      → HasBound before port (after system (closing system fd (answered system q fd r)) f)
  checked-HasBound before port fd q (true, w) f k = k w
  checked-HasBound before port fd q (false, w) f k = tt

  watch-HasBound :
      (before : List (ℕ × ℕ)) (port : ℤ) (fd : ℕ) (q : Process World) (r : Bool × World)
      → q.binds ≡ before ++ (fd, to_port port) ∷ []
      → HasBound before port (answered system q fd r)
  watch-HasBound before port fd q (true, w) e = e
  watch-HasBound before port fd q (false, w) e = tt

  pub register_server-HasBound :
      (port : ℤ) (p : Process World) → HasBound p.binds port (register_server system port p)
  unfolding register_server bind_port listen_on watch
  register_server-HasBound port p =
      after-HasBound p.binds port (create_nonblocking system p) _ (create_nonblocking-binds p)
        (λ fd q e.
          checked-HasBound p.binds port fd (asked_to_bind system q fd port)
            (bind fd (to_port port) q.world)
            (λ b p1.
              after system (closing system fd (listen_on system fd p1)) (λ l. watch system fd))
            (λ w.
              checked-HasBound p.binds port fd
                (record (asked_to_bind system q fd port) { world = w }) (listen fd w)
                (λ l. watch system fd)
                (λ w2.
                  watch-HasBound p.binds port fd
                    (record (asked_to_bind system q fd port) { world = w2 }) (add_fd fd w2)
                    (ap (λ l. l ++ (fd, to_port port) ∷ []) e))))

  pub register_udp_server-HasBound :
      (port : ℤ) (p : Process World) → HasBound p.binds port (register_udp_server system port p)
  unfolding register_udp_server bind_port watch
  register_udp_server-HasBound port p =
      after-HasBound p.binds port (create_datagram system p) _ (create_datagram-binds p) (λ fd q e.
        checked-HasBound p.binds port fd (asked_to_bind system q fd port)
          (bind fd (to_port port) q.world) (λ b. watch system fd)
          (λ w.
            watch-HasBound p.binds port fd (record (asked_to_bind system q fd port) { world = w })
              (add_fd fd w) (ap (λ l. l ++ (fd, to_port port) ∷ []) e)))
