-- ===== src/Event/Listening.antt =====
-- Listening sockets: `Socket` and `UdpSocket` of lib_network/src/event/socket.cc and udp_socket.cc,
-- and `Reactor::RegisterServer` and `RegisterUdpServer` of reactor.cc, up to the callbacks, which
-- are in Reactor. The kernel's answers are the parameter `System`; a failure is `none`.
pub mod Binds
pub mod Descriptors
pub mod Willing
use network_lirbary.Common.{
  ℕ, ◌%◌, ◌-◌, ◌+◌, ◌^◌, ◌==◌, Bool, true, false, if◌then◌else◌, List, [], ◌∷◌, ◌++◌, Option, none,
  some, bit_or,
}
use network_lirbary.Common.Process.{Process, removed}
use network_lirbary.Common.Text.{ℤ, pos, negsuc}

pub record System : Type 1 where
  pub World : Type 0
  -- A stream socket, or a datagram socket.
  pub socket : Bool → World → Option ℕ × World
  pub setsockopt : ℕ → ℕ → World → Bool × World
  pub get_flags : ℕ → World → Option ℕ × World
  pub set_flags : ℕ → ℕ → World → Bool × World
  pub bind : ℕ → ℕ → World → Bool × World
  pub listen : ℕ → World → Bool × World
  pub close : ℕ → World → World
  pub epoll_create : World → Bool × World
  pub eventfd : World → Option ℕ × World
  -- `EventLoop::AddFd`
  pub add_fd : ℕ → World → Bool × World
  -- The constructor of `std::thread`, which throws where it answers `false`.
  pub spawn : World → Bool × World

-- SO_REUSEADDR | SO_REUSEPORT, and SO_REUSEADDR.
abbrev pub reuse_both : ℕ
reuse_both = bit_or 2 15

abbrev pub reuse_address : ℕ
reuse_address = 2

abbrev pub o_nonblock : ℕ
o_nonblock = 2048

-- `htons` takes the low 16 bits of an `int`.
abbrev pub to_port : ℤ → ℕ
to_port (pos n) = n % 2 ^ 16
to_port (negsuc n) = 2 ^ 16 - 1 - n % 2 ^ 16

module _ (system : System) where
  open system use {
    World, socket, setsockopt, get_flags, set_flags, bind, listen, close, add_fd, epoll_create,
    eventfd,
  }

  -- A fallible call.
  abbrev pub Call : Type 0 → Type 0
  Call A = Process World → Option A × Process World

  abbrev pub after :
      {A B : Type 0} → Option A × Process World → (A → Call B) → Option B × Process World
  after (none, p) f = (none, p)
  after (some a, p) f = f a p

  infixl 5 ◌>>=◌
  abbrev pub ◌>>=◌ : {A B : Type 0} → Call A → (A → Call B) → Call B
  ◌>>=◌ m f p = after (m p) f

  abbrev pub succeed : {A : Type 0} → A → Call A
  succeed a p = (some a, p)

  -- A system call that answers whether it succeeded.
  abbrev pub answered : {A : Type 0} → Process World → A → Bool × World → Option A × Process World
  answered p a (true, w) = (some a, record p { world = w })
  answered p a (false, w) = (none, record p { world = w })

  abbrev pub opening : Process World → Option ℕ × World → Option ℕ × Process World
  opening p (none, w) = (none, record p { world = w })
  opening p (some fd, w) = (some fd, record p { world = w; opened = fd ∷ p.opened })

  pub open_socket : Bool → Call ℕ
  open_socket stream p = opening p (socket stream p.world)

  pub close_fd : ℕ → Process World → Process World
  close_fd fd p = record p { world = close fd p.world; opened = removed fd p.opened }

  -- `if (!res) { close(fd); return res; }`
  abbrev pub closing : {A : Type 0} → ℕ → Option A × Process World → Option A × Process World
  closing fd (none, p) = (none, close_fd fd p)
  closing fd (some a, p) = (some a, p)

  abbrev pub flags_read : ℕ → Process World → Option ℕ × World → Option ℕ × Process World
  flags_read fd p (none, w) = (none, record p { world = w })
  flags_read fd p (some flags, w) =
      answered (record p { world = w }) fd (set_flags fd (bit_or flags o_nonblock) w)

  -- `Socket::SetNonBlocking`
  pub set_nonblocking : ℕ → Call ℕ
  set_nonblocking fd p = flags_read fd p (get_flags fd p.world)

  pub set_option : ℕ → ℕ → Call ℕ
  set_option fd option p = answered p fd (setsockopt fd option p.world)

  abbrev pub asked_to_bind : Process World → ℕ → ℤ → Process World
  asked_to_bind p fd port = record p { binds = p.binds ++ (fd, to_port port) ∷ [] }

  pub bind_port : ℕ → ℤ → Call ℕ
  bind_port fd port p = answered (asked_to_bind p fd port) fd (bind fd (to_port port) p.world)

  pub listen_on : ℕ → Call ℕ
  listen_on fd p = answered p fd (listen fd p.world)

  pub watch : ℕ → Call ℕ
  watch fd p = answered p fd (add_fd fd p.world)

  -- `Socket::CreateNonBlocking`
  pub create_nonblocking : Call ℕ
  create_nonblocking = do
    fd ← open_socket true
    reused ← λ p. closing fd (set_option fd reuse_both p)
    λ p. closing fd (set_nonblocking fd p)

  -- What the process is after a call whose result is not looked at.
  abbrev ignored : {A : Type 0} → Option A × Process World → Process World
  ignored (r, p) = p

  abbrev flags_tried : ℕ → Process World → Option ℕ × World → Process World
  flags_tried fd p (none, w) = record p { world = w }
  flags_tried fd p (some flags, w) = record p {
    world = (set_flags fd (bit_or flags o_nonblock) w).1;
  }

  -- `UdpSocket::CreateNonBlocking`: neither the flags nor the option is checked.
  pub create_datagram : Call ℕ
  create_datagram = do
    fd ← open_socket false
    λ p.
        let p1 = flags_tried fd p (get_flags fd p.world) in
        (some fd, ignored (set_option fd reuse_address p1))

  -- `Reactor::RegisterServer`: the descriptor that listens.
  pub register_server : ℤ → Call ℕ
  register_server port = do
    server_fd ← create_nonblocking
    bound ← λ p. closing server_fd (bind_port server_fd port p)
    listening ← λ p. closing server_fd (listen_on server_fd p)
    watch server_fd

  -- `Reactor::RegisterUdpServer`
  pub register_udp_server : ℤ → Call ℕ
  register_udp_server port = do
    fd ← create_datagram
    bound ← λ p. closing fd (bind_port fd port p)
    watch fd

  create_poller : Call ℕ
  create_poller p = answered p 0 (epoll_create p.world)

  open_eventfd : Call ℕ
  open_eventfd p = opening p (eventfd p.world)

  -- `EventLoop::Init`: the poller, which is epoll whichever was asked for, and the wakeup
  -- descriptor. Whether the loop takes that one is not looked at. The descriptor of epoll is not
  -- among those opened here.
  pub init_loop : Call ℕ
  unfolding create_poller open_eventfd
  init_loop = do
    made ← create_poller
    wakeup_fd ← open_eventfd
    λ p. (some wakeup_fd, ignored (watch wakeup_fd p))
