-- ===== src/Event/Listening/Willing.antt =====
-- A kernel that grants every call.
use network_lirbary.Common.{ℕ, ◌≡◌, Bool, true, false, Option, none, some}
use network_lirbary.Common.Process.{Process}
use network_lirbary.Common.Text.{ℤ}
use network_lirbary.Event.Listening.{
  System, asked_to_bind, after, answered, opening, closing, open_socket, set_option,
  set_nonblocking, bind_port, listen_on, watch, create_nonblocking, create_datagram,
  register_server, register_udp_server, init_loop, create_poller, open_eventfd, flags_read, to_port,
  reuse_both,
}

abbrev pub Gives : {A B : Type 0} → Option A × B → Type 0
Gives (none, p) = ⊥
Gives (some a, p) = Unit

pub record IsWilling (system : System) : Type 0 where
  pub sockets : (stream : Bool) (w : system.World) → Gives (system.socket stream w)
  pub options : (fd option : ℕ) (w : system.World) → (system.setsockopt fd option w).0 ≡ true
  pub flags_known : (fd : ℕ) (w : system.World) → Gives (system.get_flags fd w)
  pub flags_taken : (fd flags : ℕ) (w : system.World) → (system.set_flags fd flags w).0 ≡ true
  pub binds : (fd port : ℕ) (w : system.World) → (system.bind fd port w).0 ≡ true
  pub listens : (fd : ℕ) (w : system.World) → (system.listen fd w).0 ≡ true
  pub watches : (fd : ℕ) (w : system.World) → (system.add_fd fd w).0 ≡ true
  pub polls : (w : system.World) → (system.epoll_create w).0 ≡ true
  pub spawns : (w : system.World) → (system.spawn w).0 ≡ true
  pub wakes : (w : system.World) → Gives (system.eventfd w)

module _ (system : System) (willing : IsWilling system) where
  open system use {
    World, socket, setsockopt, get_flags, set_flags, bind, listen, add_fd, eventfd, epoll_create,
  }
  open willing use {
    sockets, options, flags_known, flags_taken, binds, listens, watches, polls, wakes,
  }

  after-Gives :
      {A B : Type 0} (m : Option A × Process World)
      (f : A → Process World → Option B × Process World)
      → Gives m
      → ((a : A) (p : Process World) → Gives (f a p))
      → Gives (after system m f)
  after-Gives (none, p) f g k = elim g [ ]
  after-Gives (some a, p) f g k = k a p

  answered-Gives :
      {A : Type 0} (p : Process World) (a : A) (r : Bool × World)
      → r.0 ≡ true
      → Gives (answered system p a r)
  answered-Gives p a (true, w) h = tt
  answered-Gives p a (false, w) h = cc

  opening-Gives : (p : Process World) (r : Option ℕ × World) → Gives r → Gives (opening system p r)
  opening-Gives p (none, w) g = g
  opening-Gives p (some fd, w) g = tt

  closing-Gives :
      {A : Type 0} (fd : ℕ) (m : Option A × Process World) → Gives m → Gives (closing system fd m)
  closing-Gives fd (none, p) g = elim g [ ]
  closing-Gives fd (some a, p) g = tt

  flags_read-Gives :
      (fd : ℕ) (p : Process World) (r : Option ℕ × World)
      → Gives r
      → Gives (flags_read system fd p r)
  flags_read-Gives fd p (none, w) g = elim g [ ]
  flags_read-Gives fd p (some flags, w) g =
      answered-Gives (record p { world = w }) fd _ (flags_taken fd _ w)

  create_nonblocking-Gives : (p : Process World) → Gives (create_nonblocking system p)
  unfolding create_nonblocking open_socket set_option set_nonblocking
  create_nonblocking-Gives p =
      after-Gives (opening system p (socket true p.world)) _
        (opening-Gives p (socket true p.world) (sockets true p.world))
        (λ fd p1.
          after-Gives
            (closing system fd (answered system p1 fd (setsockopt fd reuse_both p1.world))) _
            (closing-Gives fd _ (answered-Gives p1 fd _ (options fd reuse_both p1.world)))
            (λ x p2.
              closing-Gives fd _
                (flags_read-Gives fd p2 (get_flags fd p2.world) (flags_known fd p2.world))))

  pub register_server-Gives : (port : ℤ) (p : Process World) → Gives (register_server system port p)
  unfolding register_server bind_port listen_on watch
  register_server-Gives port p =
      after-Gives (create_nonblocking system p) _ (create_nonblocking-Gives p) (λ fd p1.
        after-Gives
          (closing system fd (
            answered system (asked_to_bind system p1 fd port) fd (bind fd (to_port port) p1.world)))
          _
          (closing-Gives fd _ (
            answered-Gives (asked_to_bind system p1 fd port) fd _
              (binds fd (to_port port) p1.world)))
          (λ x p2.
            after-Gives (closing system fd (answered system p2 fd (listen fd p2.world))) _
              (closing-Gives fd _ (answered-Gives p2 fd _ (listens fd p2.world)))
              (λ z p3. answered-Gives p3 fd (add_fd fd p3.world) (watches fd p3.world))))

  pub register_udp_server-Gives :
      (port : ℤ) (p : Process World) → Gives (register_udp_server system port p)
  unfolding register_udp_server create_datagram open_socket bind_port watch
  register_udp_server-Gives port p =
      after-Gives (create_datagram system p) _
        (after-Gives (opening system p (socket false p.world)) _
          (opening-Gives p (socket false p.world) (sockets false p.world)) (λ fd p1. tt))
        (λ fd p1.
          after-Gives
            (closing system fd (
              answered system (asked_to_bind system p1 fd port) fd
                (bind fd (to_port port) p1.world)))
            _
            (closing-Gives fd _ (
              answered-Gives (asked_to_bind system p1 fd port) fd _
                (binds fd (to_port port) p1.world)))
            (λ x p2. answered-Gives p2 fd (add_fd fd p2.world) (watches fd p2.world)))

  pub init_loop-Gives : (p : Process World) → Gives (init_loop system p)
  unfolding init_loop create_poller open_eventfd
  init_loop-Gives p =
      after-Gives (answered system p 0 (epoll_create p.world)) _
        (answered-Gives p 0 (epoll_create p.world) (polls p.world))
        (λ x p1.
          after-Gives (opening system p1 (eventfd p1.world)) _
            (opening-Gives p1 (eventfd p1.world) (wakes p1.world)) (λ fd p2. tt))
