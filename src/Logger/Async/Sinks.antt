-- ===== src/Logger/Async/Sinks.antt =====
-- How many sinks there are.
use network_lirbary.Common.{
  ◌≡◌, refl, ap, ◌∙◌, suc, length, Bool, true, false, if◌then◌else◌, List, [], ◌∷◌, ◌++◌, ◌&&◌,
}
use network_lirbary.Logger.Async.{
  AsyncLogger, drop_one, is_block, OverflowPolicy, is_full, Outcome, returns, waits, overflow,
  try_enqueue, enqueue, enqueue_locked, enqueue_with_timeout, resume, collect, work, process_batch,
  write_all, take_back, drain, let_go,
}
use network_lirbary.Logger.Async.Events.{settle, asks, asks_until, resumes, collects, works, step}
use network_lirbary.Logger.Async.Moments.{
  Moment, happens, stops, enters, enters_until, pass, pass_all,
}

module _ {Entry : Type 0} where
  length-write_all : (ss : List (List Entry)) (b : List Entry) → length (write_all ss b) ≡ length ss
  length-write_all [] b = refl
  length-write_all (s ∷ ss) b = ap suc (length-write_all ss b)

  abbrev KeepsSinks : AsyncLogger Entry → Outcome Entry → Type 0
  KeepsSinks l o = length (settle l o).sinks ≡ length l.sinks

  either-KeepsSinks :
      (b : Bool) (l : AsyncLogger Entry) (o o' : Outcome Entry)
      → KeepsSinks l o
      → KeepsSinks l o'
      → KeepsSinks l (if b then o else o')
  either-KeepsSinks true l o o' h k = h
  either-KeepsSinks false l o o' h k = k

  overflow-KeepsSinks :
      (p : OverflowPolicy) (l : AsyncLogger Entry) (e : Entry) → KeepsSinks l (overflow p l e)
  unfolding overflow
  overflow-KeepsSinks OverflowPolicy.block l e =
      either-KeepsSinks l.running l waits (returns false l) refl refl
  overflow-KeepsSinks OverflowPolicy.discard_oldest l e = refl
  overflow-KeepsSinks OverflowPolicy.discard_newest l e = refl

  try_enqueue-KeepsSinks : (l : AsyncLogger Entry) (e : Entry) → KeepsSinks l (try_enqueue l e)
  unfolding try_enqueue
  try_enqueue-KeepsSinks l e =
      either-KeepsSinks (is_full l) l _ _ (overflow-KeepsSinks l.policy l e) refl

  locked-KeepsSinks :
      (l : AsyncLogger Entry) (e : Entry) (timed_out : Bool)
      → KeepsSinks l (enqueue_locked l e timed_out)
  unfolding enqueue_locked
  locked-KeepsSinks l e timed_out =
      either-KeepsSinks (is_full l && is_block l.policy) l _ _
        (either-KeepsSinks timed_out l (returns false (drop_one l)) waits refl refl)
        (try_enqueue-KeepsSinks l e)

  resume-KeepsSinks : (l : AsyncLogger Entry) (e : Entry) → KeepsSinks l (resume l e)
  unfolding resume
  resume-KeepsSinks l e =
      either-KeepsSinks (is_full l && l.running) l _ _ refl
        (either-KeepsSinks l.running l _ _ refl refl)

  pass-sinks : (l : AsyncLogger Entry) (m : Moment Entry) → length (pass l m).sinks ≡ length l.sinks
  unfolding pass step enqueue enqueue_with_timeout collect work process_batch take_back
  pass-sinks l (happens (asks e)) =
      either-KeepsSinks l.running l _ _ (try_enqueue-KeepsSinks l e) refl
  pass-sinks l (happens (asks_until timed_out e)) =
      either-KeepsSinks l.running l _ _ (locked-KeepsSinks l e timed_out) refl
  pass-sinks l (happens (resumes e)) = resume-KeepsSinks l e
  pass-sinks l (happens collects) = refl
  pass-sinks l (happens works) = length-write_all l.sinks l.batch
  pass-sinks l stops = refl
  pass-sinks l (enters e) = try_enqueue-KeepsSinks l e
  pass-sinks l (enters_until timed_out e) = locked-KeepsSinks l e timed_out

  pub pass_all-sinks :
      (l : AsyncLogger Entry) (ms : List (Moment Entry))
      → length (pass_all l ms).sinks ≡ length l.sinks
  unfolding pass_all
  pass_all-sinks l [] = refl
  pass_all-sinks l (m ∷ ms) = pass_all-sinks (pass l m) ms ∙ pass-sinks l m

  pub let_go-sinks :
      (l : AsyncLogger Entry) → l.flushed ≡ [] → length (let_go (drain l)).flushed ≡ length l.sinks
  unfolding let_go drain process_batch
  let_go-sinks l none_before =
      ap (λ ss. length (ss ++ write_all l.sinks l.queue)) none_before
      ∙ length-write_all l.sinks l.queue
