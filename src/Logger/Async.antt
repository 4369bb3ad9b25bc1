-- ===== src/Logger/Async.antt =====
-- `AsyncLogger` of lib_logger/src/async_logger.cc: producers put entries into a bounded queue,
-- and a worker hands them to the sinks in batches. What is done under the queue's lock is one
-- atomic step; `Shutdown` is several steps; a call that must wait answers `waits` and is taken up
-- again by `resume`. A sink is the list of entries that it was given; one that throws is caught
-- and passed over.
pub mod Events
pub mod Moments
pub mod Sinks
pub mod Accounts
pub mod Delivery
mod Tests
use network_lirbary.Common.{
  ℕ, suc, ◌+◌, ◌%◌, ◌^◌, Bool, true, false, not, ◌&&◌, leb, ltb, if◌then◌else◌, List, [], ◌∷◌, ◌++◌,
  length, Bytes,
}
use network_lirbary.Common.Dict.{bytes_eq}
use network_lirbary.Common.Text.{is_empty}
use network_lirbary.Logger.Config.{LoggerConfig}

pub data OverflowPolicy : Type 0 where
  block discard_oldest discard_newest : OverflowPolicy

abbrev pub is_block : OverflowPolicy → Bool
is_block block = true
is_block _ = false

abbrev pub batch_size : ℕ
batch_size = 32

-- "block" and "discard_oldest"
abbrev block_name : Bytes
block_name = b'b' ∷ b'l' ∷ b'o' ∷ b'c' ∷ b'k' ∷ []

abbrev discard_oldest_name : Bytes
discard_oldest_name =
    b'd' ∷ b'i' ∷ b's' ∷ b'c' ∷ b'a' ∷ b'r' ∷ b'd' ∷ b'_' ∷ b'o' ∷ b'l' ∷ b'd' ∷ b'e' ∷ b's' ∷ b't'
    ∷ []

pub policy_of : Bytes → OverflowPolicy
policy_of name =
    if bytes_eq name block_name
    then block
    else if bytes_eq name discard_oldest_name
    then discard_oldest
    else discard_newest

-- `batch` is the worker's local variable; `flushed` are the sinks that `Shutdown` has let go.
pub record AsyncLogger (Entry : Type 0) : Type 0 where
  pub queue_size : ℕ
  pub policy : OverflowPolicy
  pub running : Bool
  pub queue : List Entry
  pub batch : List Entry
  pub sinks : List (List Entry)
  pub flushed : List (List Entry)
  pub dropped_count : ℕ
  pub processed_count : ℕ

-- What a call for an entry comes to.
pub data Outcome (Entry : Type 0) : Type 0 where
  returns : Bool → AsyncLogger Entry → Outcome Entry
  waits : Outcome Entry

module _ {Entry : Type 0} where
  pub new : AsyncLogger Entry
  new = record {
    queue_size = 100000;
    policy = block;
    running = false;
    queue = [];
    batch = [];
    sinks = [];
    flushed = [];
    dropped_count = 0;
    processed_count = 0;
  }

  pub add_sink : AsyncLogger Entry → AsyncLogger Entry
  add_sink l = record l { sinks = l.sinks ++ [] ∷ [] }

  abbrev add_sink_if : Bool → AsyncLogger Entry → AsyncLogger Entry
  add_sink_if enabled l = if enabled then add_sink l else l

  pub initialize : LoggerConfig → AsyncLogger Entry → AsyncLogger Entry
  initialize c l =
      let l1 : AsyncLogger Entry = record l {
        queue_size = c.async_queue_size;
        policy = policy_of c.overflow_policy;
      } in
      let l2 = add_sink_if c.console_enabled l1 in
      let l3 = add_sink_if (c.file_enabled && not (is_empty c.file_path)) l2 in
      let l4 = add_sink_if c.kafka_enabled (add_sink_if c.syslog_enabled l3) in
      record l4 { running = true }

  pub set_overflow_policy : AsyncLogger Entry → OverflowPolicy → AsyncLogger Entry
  set_overflow_policy l p = record l { policy = p }

  abbrev pub is_full : AsyncLogger Entry → Bool
  is_full l = leb l.queue_size (length l.queue)

  abbrev pub push : AsyncLogger Entry → Entry → Outcome Entry
  push l e = returns true (record l { queue = l.queue ++ e ∷ [] })

  abbrev pub drop_one : AsyncLogger Entry → AsyncLogger Entry
  drop_one l = record l { dropped_count = (l.dropped_count + 1) % 2 ^ 64 }

  -- `queue::pop` of an empty queue is undefined; here it leaves the queue empty.
  abbrev pub pop : List Entry → List Entry
  pop [] = []
  pop (e ∷ q) = q

  pub overflow : OverflowPolicy → AsyncLogger Entry → Entry → Outcome Entry
  overflow block l e = if l.running then waits else returns false l
  overflow discard_oldest l e = push (drop_one (record l { queue = pop l.queue })) e
  overflow discard_newest l e = returns false (drop_one l)

  pub try_enqueue : AsyncLogger Entry → Entry → Outcome Entry
  try_enqueue l e = if is_full l then overflow l.policy l e else push l e

  pub enqueue : AsyncLogger Entry → Entry → Outcome Entry
  enqueue l e = if l.running then try_enqueue l e else returns false l

  -- What `EnqueueWithTimeout` does under the lock. The flag says whether the deadline has passed
  -- while the queue was full.
  pub enqueue_locked : AsyncLogger Entry → Entry → Bool → Outcome Entry
  enqueue_locked l e timed_out =
      let blocked = if timed_out then returns false (drop_one l) else waits in
      let fits = try_enqueue l e in if is_full l && is_block l.policy then blocked else fits

  pub enqueue_with_timeout : AsyncLogger Entry → Entry → Bool → Outcome Entry
  unfolding enqueue_locked
  enqueue_with_timeout l e timed_out =
      if l.running then enqueue_locked l e timed_out else returns false l

  -- A waiting call after it is notified.
  pub resume : AsyncLogger Entry → Entry → Outcome Entry
  resume l e =
      if is_full l && l.running then waits else if l.running then push l e else returns false l

  -- `while (!queue_.empty() && batch.size() < BATCH_SIZE)`: the queue and the batch after it.
  pub gather : List Entry → List Entry → List Entry × List Entry
  gather [] b = ([], b)
  gather (e ∷ q) b =
      let rest = gather q (b ++ e ∷ []) in if ltb (length b) batch_size then rest else (e ∷ q, b)

  -- The worker's step under the lock.
  pub collect : AsyncLogger Entry → AsyncLogger Entry
  collect l = record l { queue = (gather l.queue l.batch).0; batch = (gather l.queue l.batch).1 }

  abbrev pub write_all : List (List Entry) → List Entry → List (List Entry)
  write_all [] b = []
  write_all (s ∷ ss) b = (s ++ b) ∷ write_all ss b

  pub process_batch : AsyncLogger Entry → List Entry → AsyncLogger Entry
  process_batch l b = record l {
    sinks = write_all l.sinks b;
    processed_count = (l.processed_count + length b) % 2 ^ 64;
  }

  -- The worker's step outside the lock.
  pub work : AsyncLogger Entry → AsyncLogger Entry
  work l = record (process_batch l l.batch) { batch = [] }

  -- `Shutdown`, in steps that other threads come between. The flag is taken back;
  pub take_back : AsyncLogger Entry → AsyncLogger Entry
  take_back l = record l { running = false }

  -- what the queue holds is taken under the lock, and processed;
  pub drain : AsyncLogger Entry → AsyncLogger Entry
  drain l = process_batch (record l { queue = [] }) l.queue

  -- the sinks are flushed and let go.
  pub let_go : AsyncLogger Entry → AsyncLogger Entry
  let_go l = record l { sinks = []; flushed = l.flushed ++ l.sinks }

  -- The call without other threads' steps between: the worker ends its batch and is joined. The
  -- second call returns at once.
  pub shutdown : AsyncLogger Entry → AsyncLogger Entry
  unfolding take_back drain let_go
  shutdown l = if l.running then let_go (drain (work (take_back l))) else l
