-- ===== src/Logger/Async/Accounts.antt =====
-- How many entries the queue holds, and where each answered call went.
use network_lirbary.Common.{
  ℕ, suc, ◌+◌, ◌^◌, ◌<◌, ◌≤◌, ◌≡◌, refl, ap, ◌∙◌, true, ltb, inl, inr, Bool-cases, List, [], ◌∷◌,
  ◌++◌, All, length, length-append, append_assoc, arith,
}
use network_lirbary.Logger.Async.{
  AsyncLogger, gather, batch_size, overflow, try_enqueue, enqueue, enqueue_with_timeout, resume,
  collect, work, process_batch,
}
use network_lirbary.Logger.Async.Events.{
  Event, asks, asks_until, resumes, collects, works, step, run, answers, answered,
}

module _ {Entry : Type 0} where
  abbrev pub waiting : AsyncLogger Entry → ℕ
  waiting l = length l.batch + length l.queue

  pub gather-append : (q b : List Entry) → (gather q b).1 ++ (gather q b).0 ≡ b ++ q
  unfolding gather
  gather-append [] b = refl
  gather-append (e ∷ q) b = elim (Bool-cases (ltb (length b) batch_size)) [
    | inl more ↦ rw more (gather-append q (b ++ e ∷ []) ∙ append_assoc b (e ∷ []) q)
    | inr full ↦ rw full refl
  ]

  length-gather :
      (q b : List Entry) → length (gather q b).1 + length (gather q b).0 ≡ length b + length q
  length-gather q b = omega (
    arith,
    length-append (gather q b).1 (gather q b).0,
    length-append b q,
    ap length (gather-append q b),
  )

  gather_fewer : (q b : List Entry) → length (gather q b).0 ≤ length q
  unfolding gather
  gather_fewer [] b = omega arith
  gather_fewer (e ∷ q) b = ground (arith, gather_fewer q (b ++ e ∷ []))

  -- A running logger with room for an entry, whose counters have not wrapped.
  pub record Accounts (l : AsyncLogger Entry) (n size : ℕ) : Type 0 where
    pub is_running : l.running ≡ true
    pub size_is : l.queue_size ≡ size
    pub within : length l.queue ≤ size
    pub total : l.processed_count + waiting l + l.dropped_count ≡ n

  try_enqueue-Accounts :
      (l : AsyncLogger Entry) (e : Entry) (n size : ℕ)
      → 0 < size
      → suc n < 2 ^ 64
      → Accounts l n size
      → Accounts (step l (asks e)) (n + answers l (asks e)) size
  unfolding step answers enqueue try_enqueue overflow
  try_enqueue-Accounts l e n size h k v = ground (arith, length-append l.queue (e ∷ []))

  step-Accounts :
      (l : AsyncLogger Entry) (v : Event Entry) (n size : ℕ)
      → 0 < size
      → suc n < 2 ^ 64
      → Accounts l n size
      → Accounts (step l v) (n + answers l v) size
  unfolding step answers enqueue enqueue_with_timeout resume collect work process_batch try_enqueue
      overflow
  step-Accounts l (asks e) n size h k v = try_enqueue-Accounts l e n size h k v
  step-Accounts l (asks_until timed_out e) n size h k v =
      ground (arith, length-append l.queue (e ∷ []))
  step-Accounts l (resumes e) n size h k v = ground (arith, length-append l.queue (e ∷ []))
  step-Accounts l collects n size h k v = record {
    is_running = v.is_running;
    size_is = v.size_is;
    within = omega (arith, length-gather l.queue l.batch, v.within, gather_fewer l.queue l.batch);
    total = omega (arith, length-gather l.queue l.batch, v.total);
  }
  step-Accounts l works n size h k v = record {
    is_running = v.is_running;
    size_is = v.size_is;
    within = v.within;
    total = omega (arith, v.total);
  }

  run-Accounts :
      (l : AsyncLogger Entry) (vs : List (Event Entry)) (n size : ℕ)
      → 0 < size
      → n + answered l vs < 2 ^ 63
      → Accounts l n size
      → Accounts (run l vs) (n + answered l vs) size
  unfolding run answered
  run-Accounts l [] n size h k v = record {
    is_running = v.is_running;
    size_is = v.size_is;
    within = v.within;
    total = omega (arith, v.total);
  }
  run-Accounts l (e ∷ vs) n size h k v =
      let rest =
        run-Accounts (step l e) vs (n + answers l e) size h (omega arith)
          (step-Accounts l e n size h (omega arith) v) in
      record {
        is_running = rest.is_running;
        size_is = rest.size_is;
        within = rest.within;
        total = omega (arith, rest.total);
      }

  -- An idle logger that runs, with every sink as yet empty.
  pub record IsFresh (l : AsyncLogger Entry) : Type 0 where
    pub is_running : l.running ≡ true
    pub no_queue : l.queue ≡ []
    pub no_batch : l.batch ≡ []
    pub nothing_written : All (λ s. s ≡ []) l.sinks
    pub nothing_flushed : l.flushed ≡ []
    pub nothing_dropped : l.dropped_count ≡ 0
    pub nothing_processed : l.processed_count ≡ 0

  -- From a fresh logger with a queue size above zero, under any overflow policy and any
  -- interleaving of producers' calls with the worker's steps that answers fewer than 2^63 calls:
  -- the queue stays within its size, and the entries processed, dropped and still under way are
  -- together as many as the calls that have returned.
  pub run-accounts :
      (l : AsyncLogger Entry) (vs : List (Event Entry))
      → IsFresh l
      → 0 < l.queue_size
      → answered l vs < 2 ^ 63
      → (length (run l vs).queue ≤ l.queue_size)
        × ((run l vs).processed_count + waiting (run l vs) + (run l vs).dropped_count
            ≡ answered l vs)
  run-accounts l vs f h k =
      let v = run-Accounts l vs 0 l.queue_size h (omega arith) (record {
        is_running = f.is_running;
        size_is = refl;
        within = omega (arith, ap length f.no_queue);
        total = omega (
          arith,
          ap length f.no_queue,
          ap length f.no_batch,
          f.nothing_dropped,
          f.nothing_processed,
        );
      }) in
      (v.within, omega (arith, v.total))
