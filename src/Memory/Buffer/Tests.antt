-- ===== src/Memory/Buffer/Tests.antt =====
-- Buffers of eight bytes.
use network_lirbary.Common.{◌≡◌, refl, ◌↔◌, List, [], ◌∷◌, ◌++◌, some, take, drop, replicate, arith}
use network_lirbary.Memory.Buffer.{Buffer, find_crlf}
use network_lirbary.Memory.Buffer.Contents.{IsValid, contents}
use network_lirbary.Memory.Buffer.Fifo.{
  Op, put, take_out, run, queue_step, queue_run, Refines, run-Refines,
}
use network_lirbary.Memory.Buffer.Crlf.{NoCrlf, find_crlf_iff}

abbrev small : Buffer
small = record { store = replicate 8 0; reader_index = 0; writer_index = 0 }

small-IsValid : IsValid small
small-IsValid = record { ordered = omega arith; inside = omega arith; small = omega arith }

abbrev ops : List Op
ops = put (1 ∷ 2 ∷ 3 ∷ 4 ∷ 5 ∷ []) ∷ take_out 3 ∷ put (6 ∷ 7 ∷ 8 ∷ 9 ∷ []) ∷ take_out 1 ∷ []

run-Refines_example : Refines (run (some small) ops) (queue_run (some []) ops)
run-Refines_example = run-Refines small ops small-IsValid (omega arith)

queue_run_test : queue_run (some []) ops ≡ some (5 ∷ 6 ∷ 7 ∷ 8 ∷ 9 ∷ [])
unfolding queue_run queue_step
queue_run_test = refl

-- "ab\r\nc"
abbrev line : Buffer
line = record { store = 0 ∷ 97 ∷ 98 ∷ 13 ∷ 10 ∷ 99 ∷ []; reader_index = 1; writer_index = 6 }

find_crlf_iff_example : (find_crlf line ≡ some 2) ↔ (
    (contents line ≡ take 2 (contents line) ++ 13 ∷ 10 ∷ drop 4 (contents line))
    × NoCrlf (take 3 (contents line)))
find_crlf_iff_example =
    find_crlf_iff line 2
      (record { ordered = omega arith; inside = omega arith; small = omega arith })
