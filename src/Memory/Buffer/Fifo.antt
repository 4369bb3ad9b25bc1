-- ===== src/Memory/Buffer/Fifo.antt =====
-- A buffer under any sequence of its operations, beside a first-in, first-out queue of bytes.
use network_lirbary.Common.{
  ℕ, ◌+◌, ◌^◌, ◌<◌, ◌≡◌, refl, ap, ◌∙◌, subst, sym, Bool, true, false, leb, if◌then◌else◌, List, [],
  ◌∷◌, ◌++◌, Option, none, some, length, drop, Bytes, arith,
}
use network_lirbary.Memory.Buffer.{
  Buffer, readable_bytes, retrieve_all, retrieve, retrieve_asserted, append,
}
use network_lirbary.Memory.Buffer.Contents.{
  IsValid, contents, Queued, readable_bytes-eq, append-Queued, retrieve-Queued, append-writer-le,
  retrieve-writer-le,
}

-- What a client does to a buffer.
pub data Op : Type 0 where
  put : Bytes → Op
  take_out : ℕ → Op
  clear : Op

pub step : Buffer → Op → Option Buffer
step b (put bytes) = some (append b bytes)
step b (take_out n) = retrieve_asserted b n
step b clear = some (retrieve_all b)

-- An assertion that fails ends the program.
pub run : Option Buffer → List Op → Option Buffer
run none os = none
run (some b) [] = some b
run (some b) (o ∷ os) = run (step b o) os

-- The queue that the buffer stands for; more than it holds cannot be taken out.
unfoldable pub queue_step : Bytes → Op → Option Bytes
queue_step q (put bytes) = some (q ++ bytes)
queue_step q (take_out n) = if leb n (length q) then some (drop n q) else none
queue_step q clear = some []

unfoldable pub queue_run : Option Bytes → List Op → Option Bytes
queue_run none os = none
queue_run (some q) [] = some q
queue_run (some q) (o ∷ os) = queue_run (queue_step q o) os

abbrev pub size : Op → ℕ
size (put bytes) = length bytes
size (take_out n) = 0
size clear = 0

abbrev pub total : List Op → ℕ
total [] = 0
total (o ∷ os) = size o + total os

-- Both have ended, or a valid buffer holds the bytes of the queue.
pub data Refines : Option Buffer → Option Bytes → Type 0 where
  ended : Refines none none
  holding : {b : Buffer} {q : Bytes} → Queued b q → Refines (some b) (some q)

put-Queued :
    (b : Buffer) (q bytes : Bytes)
    → Queued b q
    → b.writer_index + length bytes < 2 ^ 63
    → Queued (append b bytes) (q ++ bytes)
put-Queued b q bytes s h =
    let r = append-Queued b bytes s.valid h in
    record { valid = r.valid; holds = r.holds ∙ ap (λ c. c ++ bytes) s.holds }

take_out-Queued : (b : Buffer) (q : Bytes) (n : ℕ) → Queued b q → Queued (retrieve b n) (drop n q)
take_out-Queued b q n s =
    let r = retrieve-Queued b n s.valid in
    record { valid = r.valid; holds = r.holds ∙ ap (drop n) s.holds }

both-Refines :
    (c : Bool) (b : Buffer) (q : Bytes) (os : List Op)
    → Refines (run (some b) os) (queue_run (some q) os)
    → Refines (run (if c then some b else none) os) (queue_run (if c then some q else none) os)
unfolding run queue_run
both-Refines true b q os h = h
both-Refines false b q os h = ended

queued-Refines :
    (b : Buffer) (q : Bytes) (os : List Op)
    → Queued b q
    → b.writer_index + total os < 2 ^ 63
    → Refines (run (some b) os) (queue_run (some q) os)
unfolding run queue_run step queue_step retrieve_asserted retrieve_all
queued-Refines b q [] s h = holding s
queued-Refines b q (put bytes ∷ os) s h =
    queued-Refines (append b bytes) (q ++ bytes) os (put-Queued b q bytes s (omega arith))
      (omega (arith, append-writer-le b bytes s.valid (omega arith)))
queued-Refines b q (clear ∷ os) s h =
    queued-Refines (retrieve_all b) [] os (record { valid = omega arith; holds = refl })
      (omega arith)
queued-Refines b q (take_out n ∷ os) s h =
    let there : readable_bytes b ≡ length q = readable_bytes-eq b s.valid ∙ ap length s.holds in
    subst
      (λ k.
        Refines (run (if leb n k then some (retrieve b n) else none) os)
          (queue_run (if leb n (length q) then some (drop n q) else none) os))
      (sym there)
      (both-Refines (leb n (length q)) (retrieve b n) (drop n q) os (
        queued-Refines (retrieve b n) (drop n q) os (take_out-Queued b q n s)
          (omega (arith, retrieve-writer-le b n))))

-- From a valid buffer, any sequence of appends, retrievals and clearings whose appended bytes do
-- not carry the writer index to 2^63: if each retrieval asks for at most what a byte queue under
-- the same sequence holds, then the program goes on with a valid buffer, whose readable bytes are
-- exactly those of the queue; at the first retrieval that asks for more, the assertion ends the
-- program.
pub run-Refines :
    (b : Buffer) (os : List Op)
    → IsValid b
    → b.writer_index + total os < 2 ^ 63
    → Refines (run (some b) os) (queue_run (some (contents b)) os)
run-Refines b os v h = queued-Refines b (contents b) os (record { valid = v; holds = refl }) h
