-- ===== src/Event/Listening/Descriptors.antt =====
-- Which descriptors are left open by a registration.
use network_lirbary.Common.{
  ℕ, List, [], ◌∷◌, ◌++◌, ◌≡◌, ap, ◌∙◌, Bool, true, false, Option, none, some, arith,
}
use network_lirbary.Common.Process.{Process, removed, removed_lem}
use network_lirbary.Common.Text.{ℤ}
use network_lirbary.Event.Listening.{
  System, open_socket, close_fd, set_nonblocking, set_option, bind_port, listen_on, watch,
  create_nonblocking, create_datagram, register_server, register_udp_server, after, answered,
  closing, to_port, asked_to_bind,
}

abbrev opened_by : Option ℕ → List ℕ
opened_by none = []
opened_by (some fd) = fd ∷ []

-- A success has opened the descriptor that it answers, a failure has left nothing open.
abbrev pub Settles : {World : Type 0} → List ℕ → Option ℕ × Process World → Type 0
Settles before r = r.1.opened ≡ opened_by r.0 ++ before

module _ (system : System) where
  open system use {World, bind, listen, add_fd}

  create_nonblocking-Settles : (p : Process World) → Settles p.opened (create_nonblocking system p)
  unfolding create_nonblocking open_socket close_fd set_nonblocking set_option removed
  create_nonblocking-Settles p = ground arith

  after-Settles :
      (before : List ℕ) (m : Option ℕ × Process World)
      (f : ℕ → Process World → Option ℕ × Process World)
      → Settles before m
      → ((fd : ℕ) (q : Process World) → q.opened ≡ fd ∷ before → Settles before (f fd q))
      → Settles before (after system m f)
  after-Settles before (none, q) f s k = s
  after-Settles before (some fd, q) f s k = k fd q s

  checked-Settles :
      (before : List ℕ) (fd : ℕ) (q : Process World) (r : Bool × World)
      (f : ℕ → Process World → Option ℕ × Process World)
      → q.opened ≡ fd ∷ before
      → ((q' : Process World) → q'.opened ≡ fd ∷ before → Settles before (f fd q'))
      → Settles before (after system (closing system fd (answered system q fd r)) f)
  unfolding close_fd
  checked-Settles before fd q (true, w) f e k = k (record q { world = w }) e
  checked-Settles before fd q (false, w) f e k = ap (removed fd) e ∙ removed_lem fd before

  watch-Settles :
      (before : List ℕ) (fd : ℕ) (q : Process World) (r : Bool × World)
      → q.opened ≡ fd ∷ before
      → r.0 ≡ true
      → Settles before (answered system q fd r)
  watch-Settles before fd q (true, w) e h = e
  watch-Settles before fd q (false, w) e h = cc

  -- If the event loop takes every descriptor, then `RegisterServer`, whatever else the kernel
  -- answers, either succeeds and has opened exactly the descriptor that it listens on, or fails
  -- and has left no new descriptor open.
  pub register_server-Settles :
      (p : Process World) (port : ℤ)
      → ((fd : ℕ) (w : World) → (add_fd fd w).0 ≡ true)
      → Settles p.opened (register_server system port p)
  unfolding register_server bind_port listen_on watch
  register_server-Settles p port h =
      let before = p.opened in
      after-Settles before _ _ (create_nonblocking-Settles p) (λ fd q e.
        checked-Settles before fd (asked_to_bind system q fd port) (bind fd (to_port port) q.world)
          (λ b p1. after system (closing system fd (listen_on system fd p1)) (λ l. watch system fd))
          e
          (λ q1 e1.
            checked-Settles before fd q1 (listen fd q1.world) (λ l. watch system fd) e1
              (λ q2 e2. watch-Settles before fd q2 (add_fd fd q2.world) e2 (h fd q2.world))))

  create_datagram-Settles : (p : Process World) → Settles p.opened (create_datagram system p)
  unfolding create_datagram open_socket set_option
  create_datagram-Settles p = ground arith

  pub register_udp_server-Settles :
      (p : Process World) (port : ℤ)
      → ((fd : ℕ) (w : World) → (add_fd fd w).0 ≡ true)
      → Settles p.opened (register_udp_server system port p)
  unfolding register_udp_server bind_port watch
  register_udp_server-Settles p port h =
      let before = p.opened in
      after-Settles before _ _ (create_datagram-Settles p) (λ fd q e.
        checked-Settles before fd (asked_to_bind system q fd port) (bind fd (to_port port) q.world)
          (λ b. watch system fd) e
          (λ q1 e1. watch-Settles before fd q1 (add_fd fd q1.world) e1 (h fd q1.world)))
