-- ===== src/Memory/Buffer.antt =====
-- `Buffer` of lib_network/src/memory/buffer.cc: a byte vector with a reader and a writer index.
-- Indices are `size_t` values and wrap. A pointer is an index into the vector, and a read through
-- a pointer is the list of bytes from there. The children prove what a client may rely on.
pub mod Contents
pub mod Fifo
pub mod Crlf
mod Tests
use network_lirbary.Common.{
  ℕ, suc, ◌+◌, ◌-◌, ◌==◌, Bool, true, false, ltb, leb, if◌then◌else◌, List, [], ◌∷◌, ◌++◌, Option,
  none, some, length, take, drop, replicate, Bytes, sub64, add64,
}

pub record Buffer : Type 0 where
  pub store : Bytes
  pub reader_index : ℕ
  pub writer_index : ℕ

-- A buffer over the vector that the pool hands out.
unfoldable pub of_block : Bytes → Buffer
of_block block = record { store = block; reader_index = 0; writer_index = 0 }

unfoldable pub readable_bytes : Buffer → ℕ
readable_bytes b = sub64 b.writer_index b.reader_index

unfoldable pub writable_bytes : Buffer → ℕ
writable_bytes b = sub64 (length b.store) b.writer_index

-- `n` bytes read from `Peek()`.
unfoldable pub peek : Buffer → ℕ → Bytes
peek b n = take n (drop b.reader_index b.store)

unfoldable pub has_written : Buffer → ℕ → Buffer
has_written b len = record b { writer_index = add64 b.writer_index len }

unfoldable pub retrieve_all : Buffer → Buffer
retrieve_all b = record b { reader_index = 0; writer_index = 0 }

-- `Retrieve` behind its assertion.
unfoldable pub retrieve : Buffer → ℕ → Buffer
retrieve b len =
    if ltb len (readable_bytes b)
    then record b { reader_index = add64 b.reader_index len }
    else retrieve_all b

-- `Retrieve` where assertions are on: more than there is ends the program, which is `none`.
unfoldable pub retrieve_asserted : Buffer → ℕ → Option Buffer
retrieve_asserted b len = if leb len (readable_bytes b) then some (retrieve b len) else none

-- `memcpy` of `src` to the index `pos` of the vector.
abbrev pub overwrite : Bytes → ℕ → Bytes → Bytes
overwrite store pos src = take pos store ++ (src ++ drop (pos + length src) store)

-- `vector::resize`.
abbrev pub resize : Bytes → ℕ → Bytes
resize store n = take n store ++ replicate (n - length store) 0

pub make_space : Buffer → ℕ → Buffer
make_space b len =
    if ltb (add64 (writable_bytes b) b.reader_index) len
    then record b { store = resize b.store (add64 b.writer_index len) }
    else record {
      store =
          overwrite b.store 0
            (take (b.writer_index - b.reader_index) (drop b.reader_index b.store));
      reader_index = 0;
      writer_index = readable_bytes b;
    }

unfoldable pub ensure_writable_bytes : Buffer → ℕ → Buffer
ensure_writable_bytes b len = if ltb (writable_bytes b) len then make_space b len else b

unfoldable pub append : Buffer → Bytes → Buffer
append b bytes =
    let b' = ensure_writable_bytes b (length bytes) in
    has_written (record b' { store = overwrite b'.store b'.writer_index bytes }) (length bytes)

abbrev one_further : Option ℕ → Option ℕ
one_further none = none
one_further (some k) = some (suc k)

-- `std::search` for "\r\n": the offset of the first match.
unfoldable pub search_crlf : Bytes → Option ℕ
search_crlf [] = none
search_crlf (x ∷ []) = none
search_crlf (x ∷ (y ∷ r)) =
    let rest = one_further (search_crlf (y ∷ r)) in
    if x == 13 then (if y == 10 then some 0 else rest) else rest

-- The offset of the match from `Peek()`, or `nullptr`.
unfoldable pub find_crlf : Buffer → Option ℕ
find_crlf b = search_crlf (peek b (readable_bytes b))
