-- ===== src/Event/Loop/Dispatch.antt =====
-- What the loop watches, and which callbacks a batch of events runs.
use network_lirbary.Common.{
  ℕ, suc, ◌<◌, ◌≤◌, ◌≡◌, ◌≢◌, refl, sym, ap, ◌∙◌, true, ◌==◌, if◌then◌else◌, List, [], ◌∷◌, Option,
  none, some, arith, Bool-cases, inl, inr, All, ==_iff, if-holds,
}
use network_lirbary.Event.FdMap.{find, put, erase, find-put, find-erase}
use network_lirbary.Event.Poller.{Flags, Event, Kernel, add}
use network_lirbary.Event.Loop.{
  EventHandler, EventLoop, Result, pointer_to, is_live, add_fd, modify_found, modify_in, modify_fd,
  remove_in, remove_fd, call_found, dispatch_event, dispatch,
}

-- What the program asks of the loop.
pub data Request (Callback : Type 0) : Type 0 where
  adds : ℕ → Flags → Callback → Request Callback
  modifies : ℕ → Flags → Request Callback
  removes : ℕ → Request Callback

module _ (k : Kernel) {Callback : Type 0} where
  open k use {World}

  Tracked : ℕ → List (ℕ × EventHandler Callback) → Type 0
  Tracked n m =
      (fd : ℕ) (h : EventHandler Callback) → find fd m ≡ some h → (h.fd ≡ fd) × (h.address < n)

  -- Each handler stands under its own descriptor, and at an address that has been used.
  pub IsTracked : EventLoop World Callback → Type 0
  IsTracked l = Tracked l.next_address l.handlers

  pub empty-IsTracked : (l : EventLoop World Callback) → l.handlers ≡ [] → IsTracked l
  unfolding IsTracked Tracked find
  empty-IsTracked l e fd h f =
      let nothing : Path (Option (EventHandler Callback)) none (some h) =
        sym (ap (find fd) e) ∙ f in
      cc

  put-Tracked :
      (n n' fd : ℕ) (g : EventHandler Callback) (m : List (ℕ × EventHandler Callback))
      → Tracked n m
      → n ≤ n'
      → g.fd ≡ fd
      → g.address < n'
      → Tracked n' (put fd g m)
  unfolding Tracked
  put-Tracked n n' fd g m t le own low j h = rw (find-put fd j g m) (elim (Bool-cases (fd == j)) [
    | inl e ↦ rw e (λ s. (
      ap (λ o. fd_of j o) (sym s) ∙ own ∙ (==_iff fd j).0 e,
      rw (← ap (λ o. address_of o) s) low,
    ))
    | inr e ↦ rw e (λ s. ((t j h s).0, omega (arith, (t j h s).1)))
  ])
    where
      fd_of : ℕ → Option (EventHandler Callback) → ℕ
      fd_of d none = d
      fd_of d (some h) = h.fd

      address_of : Option (EventHandler Callback) → ℕ
      address_of none = 0
      address_of (some h) = h.address

  erase-Tracked :
      (n fd : ℕ) (m : List (ℕ × EventHandler Callback)) → Tracked n m → Tracked n (erase fd m)
  unfolding Tracked
  erase-Tracked n fd m t j h =
      rw (find-erase fd j m)
        (elim (Bool-cases (fd == j)) [ inl e ↦ rw e (λ s. cc) | inr e ↦ rw e (λ s. t j h s) ])

  add_fd-IsTracked :
      (l : EventLoop World Callback) (fd : ℕ) (events : Flags) (callback : Callback)
      → IsTracked l
      → IsTracked (add_fd k l fd events callback).1
  unfolding add_fd IsTracked Tracked
  add_fd-IsTracked l fd events callback t =
      let h : EventHandler Callback = record {
        address = l.next_address;
        fd = fd;
        events = events;
        callback = callback;
      } in
      let (added, w) = add k fd events (pointer_to h) l.world in
      if-holds {A = Result × EventLoop World Callback} (λ r. IsTracked r.1) l.initialized _ _
        (if-holds {A = Result × EventLoop World Callback} (λ r. IsTracked r.1) added _ _
          (put-Tracked l.next_address (suc l.next_address) fd h l.handlers t (omega arith) refl
            (omega arith))
          (λ j g e. ((t j g e).0, omega (arith, (t j g e).1))))
        t

  modify_in-IsTracked :
      (l : EventLoop World Callback) (fd : ℕ) (events : Flags) (o : Option (EventHandler Callback))
      → find fd l.handlers ≡ o
      → IsTracked l
      → IsTracked (modify_in k o l fd events).1
  unfolding modify_in modify_found IsTracked Tracked
  modify_in-IsTracked l fd events none e t = t
  modify_in-IsTracked l fd events (some h) e t =
      put-Tracked l.next_address l.next_address fd (record h { events = events }) l.handlers t
        (omega arith) (t fd h e).0 (t fd h e).1

  modify_fd-IsTracked :
      (l : EventLoop World Callback) (fd : ℕ) (events : Flags)
      → IsTracked l
      → IsTracked (modify_fd k l fd events).1
  unfolding modify_fd
  modify_fd-IsTracked l fd events t =
      if-holds {A = Result × EventLoop World Callback} (λ r. IsTracked r.1) l.initialized _ _
        (modify_in-IsTracked l fd events (find fd l.handlers) refl t) t

  remove_in-IsTracked :
      (l : EventLoop World Callback) (fd : ℕ) (o : Option (EventHandler Callback))
      → IsTracked l
      → IsTracked (remove_in k o l fd)
  unfolding remove_in IsTracked
  remove_in-IsTracked l fd none t = t
  remove_in-IsTracked l fd (some h) t = erase-Tracked l.next_address fd l.handlers t

  remove_fd-IsTracked :
      (l : EventLoop World Callback) (fd : ℕ) → IsTracked l → IsTracked (remove_fd k l fd)
  unfolding remove_fd
  remove_fd-IsTracked l fd t =
      if-holds IsTracked l.initialized _ _ (remove_in-IsTracked l fd (find fd l.handlers) t) t

  remove_in-find :
      (l : EventLoop World Callback) (fd : ℕ) (o : Option (EventHandler Callback))
      → find fd l.handlers ≡ o
      → find fd (remove_in k o l fd).handlers ≡ none
  unfolding remove_in
  remove_in-find l fd none e = e
  remove_in-find l fd (some h) e =
      find-erase fd fd l.handlers
      ∙ ap (λ b. if b then none else find fd l.handlers) ((==_iff fd fd).1 refl)

  remove_fd-find :
      (l : EventLoop World Callback) (fd : ℕ)
      → l.initialized ≡ true
      → find fd (remove_fd k l fd).handlers ≡ none
  unfolding remove_fd
  remove_fd-find l fd i =
      ap (λ b. find fd (if b then remove_in k (find fd l.handlers) l fd else l).handlers) i
      ∙ remove_in-find l fd (find fd l.handlers) refl

  pub request : EventLoop World Callback → Request Callback → EventLoop World Callback
  request l (adds fd events callback) = (add_fd k l fd events callback).1
  request l (modifies fd events) = (modify_fd k l fd events).1
  request l (removes fd) = remove_fd k l fd

  abbrev pub requests :
      EventLoop World Callback → List (Request Callback) → EventLoop World Callback
  requests l [] = l
  requests l (r ∷ rs) = requests (request l r) rs

  request-IsTracked :
      (l : EventLoop World Callback) (r : Request Callback) → IsTracked l → IsTracked (request l r)
  unfolding request
  request-IsTracked l (adds fd events callback) t = add_fd-IsTracked l fd events callback t
  request-IsTracked l (modifies fd events) t = modify_fd-IsTracked l fd events t
  request-IsTracked l (removes fd) t = remove_fd-IsTracked l fd t

  -- After any calls of `AddFd`, `ModifyFd` and `RemoveFd`, whatever epoll answers to them: each
  -- handler stands under its own descriptor at an address in use, if it was so before, as it is
  -- in a loop without handlers.
  pub requests-IsTracked :
      (l : EventLoop World Callback) (rs : List (Request Callback))
      → IsTracked l
      → IsTracked (requests l rs)
  requests-IsTracked l [] t = t
  requests-IsTracked l (r ∷ rs) t = requests-IsTracked (request l r) rs (request-IsTracked l r t)

  module _ (call : Callback → Flags → EventLoop World Callback → EventLoop World Callback) where
    -- A callback that touches no handler but its own.
    abbrev Local : EventHandler Callback → Type 0
    Local h =
        (l : EventLoop World Callback) (flags : Flags) (j : ℕ)
        → j ≢ h.fd
        → find j (call h.callback flags l).handlers ≡ find j l.handlers

    -- The callbacks of the handlers, one after the other.
    abbrev pub calls :
        List (EventHandler Callback × Flags) → EventLoop World Callback → EventLoop World Callback
    calls [] l = l
    calls ((h, flags) ∷ hs) l = calls hs (call h.callback flags l)

    abbrev pub events_for : List (EventHandler Callback × Flags) → List Event
    events_for [] = []
    events_for ((h, flags) ∷ hs) = record { data' = pointer_to h; events = flags } ∷ events_for hs

    abbrev Others : EventHandler Callback → List (EventHandler Callback × Flags) → Type 0
    Others h = All (λ p. p.0.fd ≢ h.fd)

    -- Handlers of different descriptors whose callbacks keep to their own.
    abbrev pub Apart : List (EventHandler Callback × Flags) → Type 0
    Apart [] = Unit {0}
    Apart ((h, flags) ∷ hs) = Local h × (Others h hs × Apart hs)

    abbrev pub Watched : EventLoop World Callback → List (EventHandler Callback × Flags) → Type 0
    Watched l = All (λ p. find p.0.fd l.handlers ≡ some p.0)

    still_Watched :
        (l : EventLoop World Callback) (h : EventHandler Callback) (flags : Flags)
        (hs : List (EventHandler Callback × Flags))
        → Local h
        → Others h hs
        → Watched l hs
        → Watched (call h.callback flags l) hs
    still_Watched l h flags [] loc o w = tt
    still_Watched l h flags ((g, fl) ∷ hs) loc o w =
        (loc l flags g.fd o.0 ∙ w.0, still_Watched l h flags hs loc o.1 w.1)

    dispatch_event-call :
        (l : EventLoop World Callback) (h : EventHandler Callback) (flags : Flags)
        → find h.fd l.handlers ≡ some h
        → dispatch_event k call l (record { data' = pointer_to h; events = flags })
          ≡ some (call h.callback flags l)
    unfolding dispatch_event call_found is_live pointer_to
    dispatch_event-call l h flags e = rw (e, is_live, (==_iff h.address h.address).1 refl)

    -- A batch of events for watched handlers of different descriptors runs their callbacks, each
    -- once and in order, if no callback touches a handler but its own.
    pub dispatch-calls :
        (l : EventLoop World Callback) (hs : List (EventHandler Callback × Flags))
        → Apart hs
        → Watched l hs
        → dispatch k call l (events_for hs) ≡ some (calls hs l)
    unfolding dispatch
    dispatch-calls l [] a w = refl
    dispatch-calls l ((h, flags) ∷ hs) a w =
        rw (dispatch_event-call l h flags w.0, dispatch)
          (dispatch-calls (call h.callback flags l) hs a.1.1
            (still_Watched l h flags hs a.0 a.1.0 w.1))

    gone :
        (l : EventLoop World Callback) (h : EventHandler Callback) (flags : Flags)
        → l.initialized ≡ true
        → dispatch_event k call
            (remove_fd k l h.fd)
            (record { data' = pointer_to h; events = flags })
          ≡ none
    unfolding dispatch_event is_live pointer_to
    gone l h flags i = rw (remove_fd-find l h.fd i, is_live)

    -- The first callback of a batch removes the descriptor of the second event: the second
    -- event's pointer is to a handler that is gone, and what the loop does is undefined.
    pub dispatch-dangles :
        (l l1 : EventLoop World Callback) (g h : EventHandler Callback) (flags flags' : Flags)
        (evs : List Event)
        → find g.fd l.handlers ≡ some g
        → l1.initialized ≡ true
        → call g.callback flags l ≡ remove_fd k l1 h.fd
        → dispatch k call l (
            record { data' = pointer_to g; events = flags }
            ∷ record { data' = pointer_to h; events = flags' }
            ∷ evs)
          ≡ none
    unfolding dispatch
    dispatch-dangles l l1 g h flags flags' evs e i removed =
        rw (dispatch_event-call l g flags e, removed, gone l1 h flags' i, dispatch)
