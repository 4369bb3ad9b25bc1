-- ===== src/Event/Poller.antt =====
-- `EpollPoller` of lib_network/src/event/epoll_poller.cc, over the system calls of epoll.
use network_lirbary.Common.{ℕ, Bool, false, List, [], ◌∷◌, Option, none, some}

-- An `EventHandler*`: the descriptor that the object holds, and its address.
pub record Pointer : Type 0 where
  pub fd : ℕ
  pub address : ℕ

-- EPOLLIN, EPOLLOUT, EPOLLERR, EPOLLHUP and EPOLLET of a word of event flags.
pub record Flags : Type 0 where
  pub readable : Bool
  pub writable : Bool
  pub error : Bool
  pub hangup : Bool
  pub edge_triggered : Bool

pub record Event : Type 0 where
  pub data' : Pointer
  pub events : Flags

-- epoll_ctl(2) and epoll_wait(2); false is a failure. `epoll_wait` is given the largest number of
-- events; `none` is a failure other than EINTR.
pub record Kernel : Type 1 where
  pub World : Type 0
  pub epoll_add : ℕ → Flags → Pointer → World → Bool × World
  pub epoll_modify : ℕ → Flags → Pointer → World → Bool × World
  pub epoll_delete : ℕ → World → World
  pub epoll_wait : ℕ → World → Option (List (Pointer × Flags)) × World

-- 128
abbrev max_events : ℕ
max_events = 128

-- What `Add` and `Modify` hand on: EPOLLIN and EPOLLOUT.
pub interest : Flags → Flags
interest f = record {
  readable = f.readable;
  writable = f.writable;
  error = false;
  hangup = false;
  edge_triggered = false;
}

-- What `Poll` reports of the kernel's flags.
pub reported : Flags → Flags
reported f = record {
  readable = f.readable;
  writable = f.writable;
  error = f.error;
  hangup = f.hangup;
  edge_triggered = false;
}

abbrev events_of : List (Pointer × Flags) → List Event
events_of [] = []
events_of ((p, f) ∷ es) = record { data' = p; events = reported f } ∷ events_of es

module _ (k : Kernel) where
  open k use {World, epoll_add, epoll_modify, epoll_delete, epoll_wait}

  -- `Add`; false is its exception.
  pub add : ℕ → Flags → Pointer → World → Bool × World
  add fd events p w = epoll_add fd (interest events) p w

  pub modify : ℕ → Flags → Pointer → World → Bool × World
  modify fd events p w = epoll_modify fd (interest events) p w

  pub remove : ℕ → World → World
  remove fd w = epoll_delete fd w

  pub polled : Option (List (Pointer × Flags)) × World → Option (List Event) × World
  polled (none, w) = (none, w)
  polled (some es, w) = (some (events_of es), w)

  pub poll : World → Option (List Event) × World
  poll w = polled (epoll_wait max_events w)
