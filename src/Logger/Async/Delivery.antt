-- ===== src/Logger/Async/Delivery.antt =====
-- What the sinks are given.
use network_lirbary.Common.{
  length, ◌≡◌, ◌≢◌, refl, sym, ap, ap₂, ◌∙◌, Bool, true, false, if◌then◌else◌, List, [], ◌∷◌, ◌++◌,
  All, append_assoc, append-nil, ◌&&◌, subst,
}
use network_lirbary.Logger.Async.{
  AsyncLogger, drop_one, is_block, OverflowPolicy, discard_oldest, is_full, Outcome, returns, waits,
  overflow, try_enqueue, enqueue, enqueue_locked, enqueue_with_timeout, resume, collect, work,
  process_batch, write_all, take_back, drain, let_go,
}
use network_lirbary.Logger.Async.Moments.{
  Moment, happens, stops, enters, enters_until, pass, pass_all, pushed_by, pushed_in,
}
use network_lirbary.Logger.Async.Sinks.{pass_all-sinks, let_go-sinks}
use network_lirbary.Logger.Async.Events.{
  settle, taken, Event, asks, asks_until, resumes, collects, works, step, accepts,
}
use network_lirbary.Logger.Async.Accounts.{gather-append, IsFresh}

module _ {Entry : Type 0} where
  -- What a sink has been given and what is on its way to it.
  abbrev pub Line : AsyncLogger Entry → List Entry → List Entry → Type 0
  Line l xs s = s ++ (l.batch ++ l.queue) ≡ xs

  record InLine (l : AsyncLogger Entry) (xs : List Entry) : Type 0 where
    keeps_oldest : l.policy ≢ discard_oldest
    lines : All (Line l xs) l.sinks
    flushed_none : l.flushed ≡ []

  All-imp :
      (P Q : List Entry → Type 0)
      → ((s : List Entry) → P s → Q s)
      → (ss : List (List Entry)) → All P ss
      → All Q ss
  All-imp P Q f [] h = tt
  All-imp P Q f (s ∷ ss) h = (f s h.0, All-imp P Q f ss h.1)

  All-write_all :
      (P Q : List Entry → Type 0) (b : List Entry)
      → ((s : List Entry) → P s → Q (s ++ b))
      → (ss : List (List Entry)) → All P ss
      → All Q (write_all ss b)
  All-write_all P Q b f [] h = tt
  All-write_all P Q b f (s ∷ ss) h = (f s h.0, All-write_all P Q b f ss h.1)

  none_more : (l : AsyncLogger Entry) (xs : List Entry) → InLine l xs → InLine l (xs ++ [])
  none_more l xs v = subst (InLine l) (sym (append-nil xs)) v

  dropped : (l : AsyncLogger Entry) (xs : List Entry) → InLine l xs → InLine (drop_one l) (xs ++ [])
  dropped l xs v =
      none_more (drop_one l) xs
        (record { keeps_oldest = v.keeps_oldest; lines = v.lines; flushed_none = v.flushed_none })

  pushed :
      (l : AsyncLogger Entry) (xs : List Entry) (e : Entry)
      → InLine l xs
      → InLine (record l { queue = l.queue ++ e ∷ [] }) (xs ++ e ∷ [])
  pushed l xs e v = record {
    keeps_oldest = v.keeps_oldest;
    lines =
        All-imp (Line l xs) _
          (λ s h.
            ap (◌++◌ s) (sym (append_assoc l.batch l.queue (e ∷ [])))
            ∙ sym (append_assoc s (l.batch ++ l.queue) (e ∷ []))
            ∙ ap (λ ys. ys ++ e ∷ []) h)
          l.sinks v.lines;
    flushed_none = v.flushed_none;
  }

  -- A call keeps the line, with the entry at its end if it is accepted.
  abbrev Settles : AsyncLogger Entry → List Entry → Entry → Outcome Entry → Type 0
  Settles l xs e o = InLine (settle l o) (xs ++ taken e o)

  refused :
      (l : AsyncLogger Entry) (xs : List Entry) (e : Entry)
      → InLine l xs
      → Settles l xs e (returns false l)
  refused l xs e v = none_more l xs v

  either-Settles :
      (b : Bool) (l : AsyncLogger Entry) (xs : List Entry) (e : Entry) (o o' : Outcome Entry)
      → Settles l xs e o
      → Settles l xs e o'
      → Settles l xs e (if b then o else o')
  either-Settles true l xs e o o' h k = h
  either-Settles false l xs e o o' h k = k

  overflow-Settles :
      (p : OverflowPolicy) (l : AsyncLogger Entry) (xs : List Entry) (e : Entry)
      → p ≢ discard_oldest
      → InLine l xs
      → Settles l xs e (overflow p l e)
  unfolding overflow
  overflow-Settles OverflowPolicy.block l xs e n v =
      either-Settles l.running l xs e waits (returns false l) (none_more l xs v) (refused l xs e v)
  overflow-Settles OverflowPolicy.discard_oldest l xs e n v = absurd (n refl)
  overflow-Settles OverflowPolicy.discard_newest l xs e n v = dropped l xs v

  try_enqueue-Settles :
      (l : AsyncLogger Entry) (xs : List Entry) (e : Entry)
      → InLine l xs
      → Settles l xs e (try_enqueue l e)
  unfolding try_enqueue
  try_enqueue-Settles l xs e v =
      either-Settles (is_full l) l xs e _ _ (overflow-Settles l.policy l xs e v.keeps_oldest v)
        (pushed l xs e v)

  locked-Settles :
      (l : AsyncLogger Entry) (xs : List Entry) (timed_out : Bool) (e : Entry)
      → InLine l xs
      → Settles l xs e (enqueue_locked l e timed_out)
  unfolding enqueue_locked
  locked-Settles l xs timed_out e v =
      either-Settles (is_full l && is_block l.policy) l xs e _ _
        (either-Settles timed_out l xs e (returns false (drop_one l)) waits (dropped l xs v)
          (none_more l xs v))
        (try_enqueue-Settles l xs e v)

  resume-Settles :
      (l : AsyncLogger Entry) (xs : List Entry) (e : Entry)
      → InLine l xs
      → Settles l xs e (resume l e)
  unfolding resume
  resume-Settles l xs e v =
      either-Settles (is_full l && l.running) l xs e _ _ (none_more l xs v)
        (either-Settles l.running l xs e _ _ (pushed l xs e v) (refused l xs e v))

  collect-InLine : (l : AsyncLogger Entry) (xs : List Entry) → InLine l xs → InLine (collect l) xs
  unfolding collect
  collect-InLine l xs v = record {
    keeps_oldest = v.keeps_oldest;
    lines =
        All-imp (Line l xs) _ (λ s h. ap (◌++◌ s) (gather-append l.queue l.batch) ∙ h) l.sinks
          v.lines;
    flushed_none = v.flushed_none;
  }

  work-InLine : (l : AsyncLogger Entry) (xs : List Entry) → InLine l xs → InLine (work l) xs
  unfolding work process_batch
  work-InLine l xs v = record {
    keeps_oldest = v.keeps_oldest;
    lines =
        All-write_all (Line l xs) _ l.batch (λ s h. append_assoc s l.batch l.queue ∙ h) l.sinks
          v.lines;
    flushed_none = v.flushed_none;
  }

  step-InLine :
      (l : AsyncLogger Entry) (v : Event Entry) (xs : List Entry)
      → InLine l xs
      → InLine (step l v) (xs ++ accepts l v)
  unfolding step accepts enqueue enqueue_with_timeout
  step-InLine l (asks e) xs i =
      either-Settles l.running l xs e _ _ (try_enqueue-Settles l xs e i) (refused l xs e i)
  step-InLine l (asks_until timed_out e) xs i =
      either-Settles l.running l xs e _ _ (locked-Settles l xs timed_out e i) (refused l xs e i)
  step-InLine l (resumes e) xs i = resume-Settles l xs e i
  step-InLine l collects xs i = none_more (collect l) xs (collect-InLine l xs i)
  step-InLine l works xs i = none_more (work l) xs (work-InLine l xs i)

  take_back-InLine :
      (l : AsyncLogger Entry) (xs : List Entry) → InLine l xs → InLine (take_back l) xs
  unfolding take_back
  take_back-InLine l xs v = record {
    keeps_oldest = v.keeps_oldest;
    lines = v.lines;
    flushed_none = v.flushed_none;
  }

  pass-InLine :
      (l : AsyncLogger Entry) (m : Moment Entry) (xs : List Entry)
      → InLine l xs
      → InLine (pass l m) (xs ++ pushed_by l m)
  unfolding pass pushed_by
  pass-InLine l (happens v) xs i = step-InLine l v xs i
  pass-InLine l stops xs i = none_more (take_back l) xs (take_back-InLine l xs i)
  pass-InLine l (enters e) xs i = try_enqueue-Settles l xs e i
  pass-InLine l (enters_until timed_out e) xs i = locked-Settles l xs timed_out e i

  pass_all-InLine :
      (l : AsyncLogger Entry) (ms : List (Moment Entry)) (xs : List Entry)
      → InLine l xs
      → InLine (pass_all l ms) (xs ++ pushed_in l ms)
  unfolding pass_all pushed_in
  pass_all-InLine l [] xs i = none_more l xs i
  pass_all-InLine l (m ∷ ms) xs i =
      subst (InLine (pass_all (pass l m) ms))
        (append_assoc xs (pushed_by l m) (pushed_in (pass l m) ms))
        (pass_all-InLine (pass l m) ms (xs ++ pushed_by l m) (pass-InLine l m xs i))

  drain-InLine :
      (l : AsyncLogger Entry) (xs : List Entry)
      → InLine l xs
      → l.batch ≡ []
      → All (λ s. s ≡ xs) (let_go (drain l)).flushed
  unfolding let_go drain process_batch
  drain-InLine l xs i none_left = rw (i.flushed_none) (
      All-write_all (Line l xs) _ l.queue (λ s h. ap (λ b. s ++ (b ++ l.queue)) (sym none_left) ∙ h)
        l.sinks i.lines)

  -- From a fresh logger whose policy does not discard the oldest entries, let the producers'
  -- calls, the worker's steps and the start of `Shutdown` come in any order, calls included that
  -- have read `running_` before it is taken back and push after it. If the worker has then ended
  -- its batch and is joined, and `Shutdown` empties the queue: it lets every sink go, and each was
  -- given exactly the entries that were accepted before it emptied the queue, each once and in
  -- the order in which they were accepted.
  pub pass_all-delivers :
      (l : AsyncLogger Entry) (ms : List (Moment Entry))
      → IsFresh l
      → l.policy ≢ discard_oldest
      → (pass_all l ms).batch ≡ []
      → (length (let_go (drain (pass_all l ms))).flushed ≡ length l.sinks)
        × All (λ s. s ≡ pushed_in l ms) (let_go (drain (pass_all l ms))).flushed
  pass_all-delivers l ms f n joined =
      let i = pass_all-InLine l ms [] (record {
        keeps_oldest = n;
        lines =
            All-imp (λ s. s ≡ []) _ (λ s h. ap₂ ◌++◌ h (ap₂ ◌++◌ f.no_batch f.no_queue)) l.sinks
              f.nothing_written;
        flushed_none = f.nothing_flushed;
      }) in
      (
        let_go-sinks (pass_all l ms) i.flushed_none ∙ pass_all-sinks l ms,
        drain-InLine (pass_all l ms) (pushed_in l ms) i joined,
      )
