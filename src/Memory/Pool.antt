-- ===== src/Memory/Pool.antt =====
-- `BufferPool` of lib_network/src/memory/buffer_pool.cc, `ObjectPool` of object_pool.h, and the
-- life cycle of a `Buffer` (construction, destruction, move) in buffer.cc. A pool is a list whose
-- head is the back of the vector. Each call holds the pool's mutex, so calls are atomic steps.
pub mod Recycling
use network_lirbary.Common.{
  ℕ, ◌^◌, Bool, true, false, ltb, leb, if◌then◌else◌, List, [], ◌∷◌, length, replicate, Bytes,
  Option, none, some,
}
use network_lirbary.Memory.Buffer.{Buffer, of_block}

-- A `std::vector<char>`: its elements and its capacity.
pub record Block : Type 0 where
  pub bytes : Bytes
  pub capacity : ℕ

abbrev pub BufferPool : Type 0
BufferPool = List Block

abbrev pub max_connection_pool_size : ℕ
max_connection_pool_size = 100000

-- `std::vector<char>(size)`.
abbrev pub new_block : ℕ → Block
new_block size = record { bytes = replicate size 0; capacity = size }

-- A recycled vector is cleared, and one that is too small is dropped.
pub acquire : BufferPool → ℕ → Block × BufferPool
acquire [] size = (new_block size, [])
acquire (buf ∷ pool) size =
    if leb size buf.capacity then (record buf { bytes = [] }, pool) else (new_block size, pool)

pub release : BufferPool → Block → BufferPool
release pool buffer = if ltb (length pool) max_connection_pool_size then buffer ∷ pool else pool

-- `Buffer(initial_size)`; the block's capacity is kept beside the buffer.
pub construct : BufferPool → ℕ → Buffer × ℕ × BufferPool
construct pool initial_size =
    let (block, pool') = acquire pool initial_size in (of_block block.bytes, block.capacity, pool')

abbrev is_empty : Bytes → Bool
is_empty [] = true
is_empty (x ∷ xs) = false

-- `~Buffer()`: an empty vector is not handed back.
pub destroy : BufferPool → Buffer → ℕ → BufferPool
destroy pool b capacity =
    if is_empty b.store
    then pool
    else release pool (record { bytes = b.store; capacity = capacity })

-- The move constructor: the new buffer, and what is left of the old one.
pub move : Buffer → Buffer × Buffer
move other = (other, record { store = []; reader_index = 0; writer_index = 0 })

-- Move assignment from another buffer; `capacity` is that of the vector which is replaced.
pub move_assign : BufferPool → Buffer → ℕ → Buffer → Buffer × Buffer × BufferPool
unfolding move
move_assign pool b capacity other =
    let (b', other') = move other in (b', other', destroy pool b capacity)

-- `ObjectPool<T>`; `fresh` is `make_shared<T>()`, and a null pointer is `none`.
module _ {ℓ} {T : Type ℓ} where
  pub object_acquire : T → List T → T × List T
  object_acquire fresh [] = (fresh, [])
  object_acquire fresh (obj ∷ pool) = (obj, pool)

  pub object_release : List T → Option T → List T
  object_release pool none = pool
  object_release pool (some obj) = obj ∷ pool

  pub object_size : List T → ℕ
  object_size pool = length pool
