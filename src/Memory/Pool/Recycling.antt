-- ===== src/Memory/Pool/Recycling.antt =====
-- What a client of the pools may rely on.
use network_lirbary.Common.{
  ℕ, ◌+◌, ◌^◌, ◌≤◌, ◌<◌, ◌≡◌, refl, inl, inr, List, [], ◌∷◌, length, arith, length-replicate,
  Bool-cases, leb, le→leb,
}
use network_lirbary.Memory.Buffer.{of_block, writable_bytes}
use network_lirbary.Memory.Buffer.Contents.{Queued}
use network_lirbary.Memory.Pool.{
  Block, BufferPool, max_connection_pool_size, new_block, acquire, release, construct,
}

-- A vector's size is within its capacity.
abbrev pub IsBlock : Block → Type 0
IsBlock b = length b.bytes ≤ b.capacity

pub data Call : Type 0 where
  acquires : ℕ → Call
  releases : Block → Call

pub step : BufferPool → Call → BufferPool
step pool (acquires size) = (acquire pool size).1
step pool (releases b) = release pool b

pub run : BufferPool → List Call → BufferPool
run pool [] = pool
run pool (c ∷ cs) = run (step pool c) cs

step_bounded :
    (pool : BufferPool) (c : Call)
    → length pool ≤ max_connection_pool_size
    → length (step pool c) ≤ max_connection_pool_size
unfolding step acquire release
step_bounded [] (acquires size) h = ground arith
step_bounded (b ∷ pool) (acquires size) h = ground arith
step_bounded pool (releases b) h = ground arith

-- After any sequence of calls on a pool within its limit, the pool is still within its limit.
pub run_bounded :
    (pool : BufferPool) (cs : List Call)
    → length pool ≤ max_connection_pool_size
    → length (run pool cs) ≤ max_connection_pool_size
unfolding run
run_bounded pool [] h = h
run_bounded pool (c ∷ cs) h = run_bounded (step pool c) cs (step_bounded pool c h)

fresh_block : (size : ℕ) → size < 2 ^ 63 → Queued (of_block (new_block size).bytes) []
unfolding of_block
fresh_block size h = record { valid = omega (arith, length-replicate {A = ℕ} size 0); holds = refl }

-- Whatever the pool holds, a buffer constructed from it with an initial size below 2^63 is valid
-- and holds no readable byte, its vector's capacity is at least the size asked for, and the pool
-- shrinks by at most one vector.
pub construct-IsValid :
    (pool : BufferPool) (size : ℕ)
    → size < 2 ^ 63
    → Queued (construct pool size).0 []
      × (size ≤ (construct pool size).1)
      × (length pool ≤ length (construct pool size).2 + 1)
unfolding construct acquire of_block
construct-IsValid [] size h = (fresh_block size h, omega arith, omega arith)
construct-IsValid (b ∷ pool) size h = elim (Bool-cases (leb size b.capacity)) [
  | inl e ↦ (rw e (record { valid = omega arith; holds = refl }), ground arith, ground arith)
  | inr e ↦ (rw e (fresh_block size h), ground arith, ground arith)
]

-- A vector that the pool hands out again is empty, whatever size was asked for: a buffer over it
-- has no writable byte until it grows.
pub writable_bytes-recycled :
    (pool : BufferPool) (b : Block) (size : ℕ)
    → size ≤ b.capacity
    → writable_bytes (construct (b ∷ pool) size).0 ≡ 0
unfolding construct acquire of_block writable_bytes
writable_bytes-recycled pool b size h = rw (le→leb _ _ h)
