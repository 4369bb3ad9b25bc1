-- ===== src/Logger/Async/Tests.antt =====
-- A logger of numbers with one sink and room for one entry.
use network_lirbary.Common.{
  ℕ, ◌+◌, ◌^◌, ◌<◌, ◌≤◌, ◌≡◌, ◌≢◌, refl, true, List, [], ◌∷◌, All, length, arith,
}
use network_lirbary.Logger.Async.{
  collect, gather, work, AsyncLogger, OverflowPolicy, discard_oldest, enqueue, try_enqueue,
  overflow, process_batch, take_back, drain, let_go,
}
use network_lirbary.Logger.Async.Events.{
  answers, step, accepts, Event, asks, collects, works, run, answered,
}
use network_lirbary.Logger.Async.Accounts.{waiting, IsFresh, run-accounts}
use network_lirbary.Logger.Async.Delivery.{pass_all-delivers}
use network_lirbary.Logger.Async.Moments.{
  Moment, happens, stops, enters, pass, pass_all, pushed_by, pushed_in,
}

abbrev logger : OverflowPolicy → AsyncLogger ℕ
logger policy = record {
  queue_size = 1;
  policy = policy;
  running = true;
  queue = [];
  batch = [];
  sinks = [] ∷ [];
  flushed = [];
  dropped_count = 0;
  processed_count = 0;
}

logger-IsFresh : (policy : OverflowPolicy) → IsFresh (logger policy)
logger-IsFresh policy = record {
  is_running = refl;
  no_queue = refl;
  no_batch = refl;
  nothing_written = (refl, tt);
  nothing_flushed = refl;
  nothing_dropped = refl;
  nothing_processed = refl;
}

abbrev events : List (Event ℕ)
events = asks 1 ∷ asks 2 ∷ collects ∷ asks 3 ∷ works ∷ []

abbrev after : AsyncLogger ℕ
after = run (logger discard_oldest) events

few : answered (logger discard_oldest) events < 2 ^ 63
unfolding answered answers step enqueue try_enqueue overflow collect gather work
few = omega arith

run-accounts_example :
    (length after.queue ≤ 1)
    × (after.processed_count + waiting after + after.dropped_count
        ≡ answered (logger discard_oldest) events)
run-accounts_example =
    run-accounts (logger discard_oldest) events (logger-IsFresh discard_oldest) (omega arith) few

newest-kept : OverflowPolicy.discard_newest ≢ discard_oldest
newest-kept e = cc

-- A call reads the flag, `Shutdown` takes it back, and the call pushes.
abbrev moments : List (Moment ℕ)
moments =
    happens (asks 1) ∷ happens (asks 2) ∷ happens collects ∷ stops ∷ happens works ∷ enters 3 ∷ []

pass_all-delivers_example :
    (length (let_go (drain (pass_all (logger OverflowPolicy.discard_newest) moments))).flushed ≡ 1)
    × All
        (λ s. s ≡ pushed_in (logger OverflowPolicy.discard_newest) moments)
        (let_go (drain (pass_all (logger OverflowPolicy.discard_newest) moments))).flushed
unfolding pass_all pass step enqueue try_enqueue overflow collect gather work take_back
    process_batch
pass_all-delivers_example =
    pass_all-delivers (logger OverflowPolicy.discard_newest) moments
      (logger-IsFresh OverflowPolicy.discard_newest) newest-kept refl

-- Of 1, 2 and 3, the second finds the queue full.
pushed_in_test : pushed_in (logger OverflowPolicy.discard_newest) moments ≡ 1 ∷ 3 ∷ []
unfolding pushed_in pushed_by pass accepts step enqueue try_enqueue overflow collect gather work
    take_back process_batch
pushed_in_test = refl
