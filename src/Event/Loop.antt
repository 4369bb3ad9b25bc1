-- ===== src/Event/Loop.antt =====
-- `EventLoop` of lib_network/src/event/event_loop.cc: the descriptors it watches and the dispatch
-- of a batch of events. An `EventHandler` is freed when the map drops it; an event may still
-- point to it. What the loop does with such a pointer is undefined, which is `none`. The queue of
-- tasks is in Event/Tasks; logging is left out.
pub mod Dispatch
use network_lirbary.Common.{
  ℕ, suc, Bool, true, false, ◌==◌, if◌then◌else◌, List, [], ◌∷◌, Option, none, some,
}
use network_lirbary.Event.FdMap.{find, put, erase}
use network_lirbary.Event.Poller.{Pointer, Flags, Event, Kernel, add, modify, remove, poll}

pub record EventHandler (Callback : Type 0) : Type 0 where
  pub address : ℕ
  pub fd : ℕ
  pub events : Flags
  pub callback : Callback

pub record EventLoop (World Callback : Type 0) : Type 0 where
  -- `poller_` is set.
  pub initialized : Bool
  pub running : Bool
  pub handlers : List (ℕ × EventHandler Callback)
  -- Addresses from here on have not been used.
  pub next_address : ℕ
  pub world : World

-- The codes of constants/errors.h.
pub data ErrorCode : Type 0 where
  not_initialized not_found internal : ErrorCode

-- `utils::Result<void>`.
pub data Result : Type 0 where
  success : Result
  failure : ErrorCode → Result

pub pointer_to : {Callback : Type 0} → EventHandler Callback → Pointer
pointer_to h = record { fd = h.fd; address = h.address }

-- The object that an event points to is still there.
pub is_live : {Callback : Type 0} → List (ℕ × EventHandler Callback) → Pointer → Bool
is_live handlers p = elim (find p.fd handlers) [ none ↦ false | some h ↦ h.address == p.address ]

module _ (k : Kernel) {Callback : Type 0} where
  open k use {World}

  pub add_fd : EventLoop World Callback → ℕ → Flags → Callback → Result × EventLoop World Callback
  add_fd l fd events callback =
      let h : EventHandler Callback = record {
        address = l.next_address;
        fd = fd;
        events = events;
        callback = callback;
      } in
      let (added, w) = add k fd events (pointer_to h) l.world in
      if l.initialized
      then (if added
          then (
            success,
            record l {
              handlers = put fd h l.handlers;
              next_address = suc l.next_address;
              world = w;
            },
          )
          else (failure internal, record l { next_address = suc l.next_address; world = w }))
      else (failure not_initialized, l)

  -- `ModifyFd` of a descriptor that is watched.
  pub modify_found :
      EventLoop World Callback
      → ℕ
      → Flags
      → EventHandler Callback
      → Result × EventLoop World Callback
  modify_found l fd events h =
      let h' : EventHandler Callback = record h { events = events } in
      let (modified, w) = modify k fd events (pointer_to h) l.world in
      let l' : EventLoop World Callback = record l { handlers = put fd h' l.handlers; world = w } in
      (if modified then success else failure internal, l')

  pub modify_in :
      Option (EventHandler Callback)
      → EventLoop World Callback
      → ℕ
      → Flags
      → Result × EventLoop World Callback
  modify_in none l fd events = (failure not_found, l)
  modify_in (some h) l fd events = modify_found l fd events h

  pub modify_fd : EventLoop World Callback → ℕ → Flags → Result × EventLoop World Callback
  modify_fd l fd events =
      if l.initialized
      then modify_in (find fd l.handlers) l fd events
      else (failure not_initialized, l)

  pub remove_in :
      Option (EventHandler Callback) → EventLoop World Callback → ℕ → EventLoop World Callback
  remove_in none l fd = l
  remove_in (some h) l fd = record l { handlers = erase fd l.handlers; world = remove k fd l.world }

  pub remove_fd : EventLoop World Callback → ℕ → EventLoop World Callback
  remove_fd l fd = if l.initialized then remove_in (find fd l.handlers) l fd else l

  module _ (call : Callback → Flags → EventLoop World Callback → EventLoop World Callback) where
    pub call_found :
        Option (EventHandler Callback) → Flags → EventLoop World Callback → EventLoop World Callback
    call_found none flags l = l
    call_found (some h) flags l = call h.callback flags l

    -- The body of the loop over a batch of events, for one event.
    pub dispatch_event : EventLoop World Callback → Event → Option (EventLoop World Callback)
    dispatch_event l ev =
        if is_live l.handlers ev.data'
        then some (call_found (find ev.data'.fd l.handlers) ev.events l)
        else none

    pub dispatch : EventLoop World Callback → List Event → Option (EventLoop World Callback)
    dispatch l [] = some l
    dispatch l (ev ∷ evs) = elim (dispatch_event l ev) [ none ↦ none | some l' ↦ dispatch l' evs ]

    -- One round of `while (running_)`: the flag says whether there is another round.
    pub round : EventLoop World Callback → Option (Bool × EventLoop World Callback)
    round l =
        let (events, w) = poll k l.world in
        let l' : EventLoop World Callback = record l { world = w } in
        elim events [
          | none ↦ some (false, l')
          | some evs ↦ elim (dispatch l' evs) [ none ↦ none | some l2 ↦ some (l2.running, l2) ]
        ]
