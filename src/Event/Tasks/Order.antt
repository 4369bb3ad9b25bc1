-- ===== src/Event/Tasks/Order.antt =====
-- No queued task is lost, none runs twice, and none waits without a wake-up.
use network_lirbary.Common.{
  ℕ, zero, suc, ◌+◌, ◌<◌, ◌≡◌, ◌≢◌, refl, sym, ap, ◌∙◌, Bool, true, false, ◌⊎◌, inl, inr, ltb,
  lt→ltb, List, [], ◌∷◌, ◌++◌, Option, none, some, if◌then◌else◌, append_assoc, append-nil,
  Option-cases, arith, length, replicate, Bool-cases,
}
use network_lirbary.Event.Tasks.{
  Phase, polling, drained, running_tasks, Queue, eventfd_write, Step, run_in_loop, wakes, stops,
  polls, swaps, runs, new, push, wake_up, stop, poll_in, swap_in, run_in, step, run,
}

-- The tasks that other threads hand to `RunInLoop`, in the order of their pushes.
abbrev pub queued : {Task : Type 0} → List (Step Task) → List Task
queued [] = []
queued (run_in_loop false t ∷ ss) = t ∷ queued ss
queued (_ ∷ ss) = queued ss

abbrev is_drained : Phase → ℕ
is_drained drained = 1
is_drained _ = 0

module _ {Task : Type 0} where
  -- All queued tasks, those that have run first.
  abbrev pub all_tasks : Queue Task → List Task
  all_tasks q = q.done ++ (q.tasks ++ q.pending_tasks)

  -- Tasks are taken only in `HandleRead`, and what waits is announced.
  pub record IsAwake (q : Queue Task) : Type 0 where
    pub taken : (q.phase ≡ running_tasks) ⊎ (q.tasks ≡ [])
    pub announced : (q.pending_tasks ≡ []) ⊎ (0 < q.wakeups + (q.owed + is_drained q.phase))

  pub new-IsAwake : IsAwake new
  unfolding new
  new-IsAwake = record { taken = inr refl; announced = inl refl }

  -- What a step does to the sequence of tasks and to the invariant.
  record Good (q : Queue Task) (more : List Task) (q' : Queue Task) : Type 0 where
    adds : all_tasks q' ≡ all_tasks q ++ more
    awake : IsAwake q'

  abbrev GoodIf : Queue Task → List Task → Option (Queue Task) → Type 0
  GoodIf q more none = Unit {0}
  GoodIf q more (some q') = Good q more q'

  push-Good : (q : Queue Task) (t : Task) → IsAwake q → Good q (t ∷ []) (push t q)
  unfolding push
  push-Good q t a = record {
    adds = simp append_assoc;
    awake = record { taken = a.taken; announced = inr (omega arith) };
  }

  same_tasks : (q : Queue Task) {ts : List Task} → ts ≡ all_tasks q → ts ≡ all_tasks q ++ []
  same_tasks q e = e ∙ sym (append-nil (all_tasks q))

  wake_up-Good : (n : ℕ) (q : Queue Task) → q.owed ≡ n → IsAwake q → GoodIf q [] (wake_up n q)
  unfolding wake_up eventfd_write
  wake_up-Good zero q e a = tt
  wake_up-Good (suc n) q e a = record {
    adds = same_tasks q refl;
    awake = record { taken = a.taken; announced = inr (ground arith) };
  }

  idle : (q : Queue Task) → q.phase ≢ running_tasks → IsAwake q → q.tasks ≡ []
  idle q e a = elim a.taken [ inl p ↦ absurd (e p) | inr p ↦ p ]

  poll-Good : (p : Phase) (q : Queue Task) → q.phase ≡ p → IsAwake q → GoodIf q [] (poll_in p q)
  unfolding poll_in
  poll-Good polling q e a = elim (Bool-cases (ltb 0 q.wakeups)) [
    | inl t ↦ rw t (record {
      adds = same_tasks q refl;
      awake = record { taken = inr (idle q (λ r. cc) a); announced = inr (omega arith) };
    })
    | inr t ↦ rw t tt
  ]
  poll-Good drained q e a = tt
  poll-Good running_tasks q e a = tt

  swap-Good : (p : Phase) (q : Queue Task) → q.phase ≡ p → IsAwake q → GoodIf q [] (swap_in p q)
  unfolding swap_in
  swap-Good polling q e a = tt
  swap-Good drained q e a = record {
    adds = same_tasks q (
        ap (◌++◌ q.done) (
          append-nil q.pending_tasks
          ∙ sym (ap (λ ts. ts ++ q.pending_tasks) (idle q (λ r. cc) a))));
    awake = record { taken = inl refl; announced = inl refl };
  }
  swap-Good running_tasks q e a = tt

  run-Good :
      (p : Phase) (ts : List Task) (q : Queue Task)
      → q.phase ≡ p
      → q.tasks ≡ ts
      → IsAwake q
      → GoodIf q [] (run_in p ts q)
  unfolding run_in
  run-Good polling ts q e f a = tt
  run-Good drained ts q e f a = tt
  run-Good running_tasks [] q e f a = record {
    adds = same_tasks q refl;
    awake = record {
      taken = inr f;
      announced = elim a.announced [ inl n ↦ inl n | inr n ↦ inr (omega (arith, ap is_drained e)) ];
    };
  }
  run-Good running_tasks (t ∷ ts) q e f a = record {
    adds = same_tasks q (
        append_assoc q.done (t ∷ []) (ts ++ q.pending_tasks)
        ∙ ap (λ us. q.done ++ (us ++ q.pending_tasks)) (sym f));
    awake = record { taken = inl e; announced = a.announced };
  }

  guarded :
      (b : Bool) (q : Queue Task) (more : List Task) (o : Option (Queue Task))
      → GoodIf q more o
      → GoodIf q more (if b then o else none)
  guarded true q more o g = g
  guarded false q more o g = tt

  step-Good : (q : Queue Task) (s : Step Task) → IsAwake q → GoodIf q (queued (s ∷ [])) (step q s)
  unfolding step stop
  step-Good q (run_in_loop true t) a = record {
    adds = same_tasks q refl;
    awake = record { taken = a.taken; announced = a.announced };
  }
  step-Good q (run_in_loop false t) a = push-Good q t a
  step-Good q wakes a = wake_up-Good q.owed q refl a
  step-Good q stops a = record {
    adds = same_tasks q refl;
    awake = record { taken = a.taken; announced = inr (omega arith) };
  }
  step-Good q polls a = guarded q.running q [] (poll_in q.phase q) (poll-Good q.phase q refl a)
  step-Good q swaps a = swap-Good q.phase q refl a
  step-Good q runs a = run-Good q.phase q.tasks q refl refl a

  queued-cons :
      (s : Step Task) (ss : List (Step Task)) → queued (s ∷ ss) ≡ queued (s ∷ []) ++ queued ss
  queued-cons (run_in_loop true t) ss = refl
  queued-cons (run_in_loop false t) ss = refl
  queued-cons wakes ss = refl
  queued-cons stops ss = refl
  queued-cons polls ss = refl
  queued-cons swaps ss = refl
  queued-cons runs ss = refl

  follows :
      (q q' q'' : Queue Task) (xs ys : List Task)
      → Good q xs q'
      → Good q' ys q''
      → Good q (xs ++ ys) q''
  follows q q' q'' xs ys g h = record {
    adds = h.adds ∙ ap (λ ts. ts ++ ys) g.adds ∙ append_assoc (all_tasks q) xs ys;
    awake = h.awake;
  }

  follows-if :
      (q q' : Queue Task) (xs ys : List Task) (o : Option (Queue Task))
      → Good q xs q'
      → GoodIf q' ys o
      → GoodIf q (xs ++ ys) o
  follows-if q q' xs ys none g h = tt
  follows-if q q' xs ys (some q'') g h = follows q q' q'' xs ys g h

  took :
      (q q' : Queue Task) (more : List Task) (o : Option (Queue Task))
      → GoodIf q more o
      → o ≡ some q'
      → Good q more q'
  took q q' more o g e = rw (← ap (GoodIf q more) e) g

  run-Good-all :
      (q : Queue Task) (ss : List (Step Task)) → IsAwake q → GoodIf q (queued ss) (run q ss)
  unfolding run
  run-Good-all q [] a = record { adds = same_tasks q refl; awake = a }
  run-Good-all q (s ∷ ss) a = rw (queued-cons s ss) (elim (Option-cases (step q s)) [
    | inl e ↦ rw (e, run) tt
    | inr (q', e) ↦
        let g = took q q' (queued (s ∷ [])) (step q s) (step-Good q s a) e in
        rw (e, run)
          (follows-if q q' (queued (s ∷ [])) (queued ss) (run q' ss) g (run-Good-all q' ss g.awake))
  ])

  -- After any sequence of steps of any threads, from a new loop: the tasks that have run, those
  -- that `HandleRead` has taken and those that wait are, in this order, exactly the tasks that
  -- were queued, in the order of their pushes; none is taken outside `HandleRead`; and where
  -- tasks wait, the eventfd is readable, or a thread is about to write it, or the loop is about
  -- to take them.
  pub run-IsAwake :
      (ss : List (Step Task)) (q : Queue Task)
      → run new ss ≡ some q
      → (all_tasks q ≡ queued ss) × IsAwake q
  unfolding new
  run-IsAwake ss q e =
      let g = took new q (queued ss) (run new ss) (run-Good-all new ss new-IsAwake) e in
      (g.adds, g.awake)

  -- The loop over the tasks taken, to its end.
  drain :
      (q : Queue Task) (ts : List Task)
      → run (record q { phase = running_tasks; tasks = ts }) (replicate (suc (length ts)) runs)
        ≡ some (record q { phase = polling; tasks = []; done = q.done ++ ts })
  unfolding run step run_in
  drain q [] =
      ap (λ d. some (record q { phase = polling; tasks = []; done = d })) (sym (append-nil q.done))
  drain q (t ∷ ts) =
      drain (record q { done = q.done ++ t ∷ [] }) ts
      ∙ ap (λ d. some (record q { phase = polling; tasks = []; done = d }))
          (append_assoc q.done (t ∷ []) ts)

  run-step :
      (q q' : Queue Task) (s : Step Task) (ss : List (Step Task))
      → step q s ≡ some q'
      → run q (s ∷ ss) ≡ run q' ss
  unfolding run
  run-step q q' s ss e = rw (e, run)

  polls_lem :
      (q : Queue Task)
      → q.phase ≡ polling
      → q.running ≡ true
      → 0 < q.wakeups
      → step q polls ≡ some (record q { phase = drained; wakeups = 0 })
  unfolding step poll_in
  polls_lem q at_poll on awake =
      ap (λ b. if b then poll_in q.phase q else none) on
      ∙ ap (λ p. poll_in p q) at_poll
      ∙ ap (λ b. if b then some (record q { phase = drained; wakeups = 0 }) else none)
          (lt→ltb 0 q.wakeups awake)

  readable :
      (q : Queue Task)
      → IsAwake q
      → q.phase ≡ polling
      → q.owed ≡ 0
      → q.pending_tasks ≢ []
      → 0 < q.wakeups
  readable q a at_poll none_owed waits = elim a.announced [
    | inl n ↦ absurd (waits n)
    | inr n ↦ omega (arith, ap is_drained at_poll)
  ]

  -- Where the loop is polling and runs, tasks wait, and every thread has made its wake-up: `Poll`
  -- returns, and when `HandleRead` is done all tasks that were ever queued have run, in the order
  -- of their pushes, and none is left.
  pub run-finishes :
      (ss : List (Step Task)) (q : Queue Task)
      → run new ss ≡ some q
      → q.phase ≡ polling
      → q.running ≡ true
      → q.owed ≡ 0
      → q.pending_tasks ≢ []
      → (q' : Queue Task) × (run q (polls ∷ swaps ∷ replicate (suc (length q.pending_tasks)) runs)
          ≡ some q')
        × (q'.done ≡ queued ss)
        × (q'.pending_tasks ≡ [])
  unfolding step swap_in
  run-finishes ss q e at_poll on none_owed waits =
      let (order, awake) = run-IsAwake ss q e in
      let idle_now = idle q (λ r. cc) awake in
      let q1 : Queue Task = record q { phase = drained; wakeups = 0 } in
      let rest : List (Step Task) = replicate (suc (length q.pending_tasks)) runs in
      let went =
        run-step q q1 polls (swaps ∷ rest)
          (polls_lem q at_poll on (readable q awake at_poll none_owed waits))
        ∙ run-step q1
            (record q1 { phase = running_tasks; tasks = q.pending_tasks; pending_tasks = [] }) swaps
            rest refl
        ∙ drain (record q1 { pending_tasks = [] }) q.pending_tasks in
      (_, went, ap (λ ts. q.done ++ (ts ++ q.pending_tasks)) (sym idle_now) ∙ order, refl)
