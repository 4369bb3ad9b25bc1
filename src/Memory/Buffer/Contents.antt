-- ===== src/Memory/Buffer/Contents.antt =====
-- The readable bytes of a buffer as a byte queue.
use network_lirbary.Common.{
  ℕ, ◌+◌, ◌-◌, ◌^◌, ◌≤◌, ◌<◌, ◌≡◌, refl, sym, ap, ◌∙◌, ltb, ltb→lt, lt→ltb, ltb→le, inl, inr,
  Bool-cases, ◌++◌, length, take, drop, replicate, Bytes, add64, take-append_left, arith,
  length-append, length-take, length-drop, length-replicate, take-append_exact, drop-append_left,
  take_all, drop_all, drop-drop, take-drop-take, append_assoc,
}
use network_lirbary.Memory.Buffer.{
  Buffer, readable_bytes, writable_bytes, peek, has_written, retrieve_all, retrieve, overwrite,
  resize, make_space, ensure_writable_bytes, append,
}

pub record IsValid (b : Buffer) : Type 0 where
  pub ordered : b.reader_index ≤ b.writer_index
  pub inside : b.writer_index ≤ length b.store
  pub small : length b.store < 2 ^ 63

abbrev pub contents : Buffer → Bytes
contents b = drop b.reader_index (take b.writer_index b.store)

pub readable_bytes-eq : (b : Buffer) → IsValid b → readable_bytes b ≡ length (contents b)
unfolding readable_bytes
readable_bytes-eq b v = omega (
  arith,
  length-drop b.reader_index (take b.writer_index b.store),
  length-take b.writer_index b.store,
)

writable_bytes-eq : (b : Buffer) → IsValid b → writable_bytes b ≡ length b.store - b.writer_index
unfolding writable_bytes
writable_bytes-eq b v = omega arith

readable_bytes-sub : (b : Buffer) → IsValid b → readable_bytes b ≡ b.writer_index - b.reader_index
unfolding readable_bytes
readable_bytes-sub b v = omega arith

pub length-contents :
    (b : Buffer) → IsValid b → length (contents b) ≡ b.writer_index - b.reader_index
length-contents b v = sym (readable_bytes-eq b v) ∙ readable_bytes-sub b v

pub peek_lem :
    (b : Buffer) (n : ℕ) → IsValid b → n ≤ length (contents b) → peek b n ≡ take n (contents b)
unfolding peek
peek_lem b n v h =
    sym
      (take-drop-take n b.reader_index b.writer_index b.store (omega (arith, length-contents b v)))

-- A read behind the first `k` readable bytes.
pub peek_at_lem :
    (b : Buffer) (k n : ℕ)
    → IsValid b
    → k + n ≤ length (contents b)
    → take n (drop (b.reader_index + k) b.store) ≡ take n (drop k (contents b))
peek_at_lem b k n v h =
    sym (
      take-drop-take n (b.reader_index + k) b.writer_index b.store
        (omega (arith, length-contents b v)))
    ∙ ap (take n) (sym (drop-drop k b.reader_index (take b.writer_index b.store)))

-- The bytes that `MakeSpace` moves to the front are the readable ones.
moved :
    (b : Buffer)
    → IsValid b
    → take (b.writer_index - b.reader_index) (drop b.reader_index b.store) ≡ contents b
moved b v =
    sym (
      take-drop-take (b.writer_index - b.reader_index) b.reader_index b.writer_index b.store
        (omega arith))
    ∙ take_all _ (contents b) (omega (arith, length-contents b v))

length-overwrite :
    (store : Bytes) (pos : ℕ) (src : Bytes)
    → pos + length src ≤ length store
    → length (overwrite store pos src) ≡ length store
length-overwrite store pos src h = omega (
  arith,
  length-append (take pos store) (src ++ drop (pos + length src) store),
  length-append src (drop (pos + length src) store),
  length-take pos store,
  length-drop (pos + length src) store,
)

length-resize : (store : Bytes) (n : ℕ) → length (resize store n) ≡ n
length-resize store n = omega (
  arith,
  length-append (take n store) (replicate (n - length store) 0),
  length-take n store,
  length-replicate {A = ℕ} (n - length store) 0,
)

record Room (b : Buffer) (len : ℕ) (b' : Buffer) : Type 0 where
  valid : IsValid b'
  same : contents b' ≡ contents b
  fits : b'.writer_index + len ≤ length b'.store
  low : b'.writer_index ≤ b.writer_index

module _ (b : Buffer) (len : ℕ) (v : IsValid b) (h : b.writer_index + len < 2 ^ 63) where
  grown :
      length b.store < b.writer_index + len
      → Room b len (record b { store = resize b.store (add64 b.writer_index len) })
  grown short = rw (exact) (record {
    valid = omega (arith, length-resize b.store (b.writer_index + len));
    same = ap (drop b.reader_index) (
        rw (take_all (b.writer_index + len) b.store (omega arith))
          (take-append_left b.writer_index b.store _ v.inside));
    fits = omega (arith, length-resize b.store (b.writer_index + len));
    low = omega arith;
  })
    where
      exact : add64 b.writer_index len ≡ b.writer_index + len
      exact = omega arith

  compacted :
      len + (b.writer_index - b.reader_index) ≤ length b.store
      → Room b len (record {
        store = overwrite b.store 0 (contents b);
        reader_index = 0;
        writer_index = b.writer_index - b.reader_index;
      })
  compacted room = record {
    valid = omega (arith, length-overwrite b.store 0 (contents b), length-contents b v);
    same = take-append_exact _ (contents b) _ (omega (arith, length-contents b v));
    fits = omega (arith, length-overwrite b.store 0 (contents b), length-contents b v);
    low = omega arith;
  }

  make_space-Room : writable_bytes b < len → Room b len (make_space b len)
  unfolding make_space
  make_space-Room short =
      rw (moved b v, readable_bytes-sub b v, writable_bytes-eq b v)
        (elim (Bool-cases (ltb (add64 (length b.store - b.writer_index) b.reader_index) len)) [
          | inl e ↦ rw e (grown (omega (arith, writable_bytes-eq b v)))
          | inr e ↦ rw e (compacted (omega (arith, ltb→le _ _ e)))
        ])

  ensure-Room : Room b len (ensure_writable_bytes b len)
  unfolding ensure_writable_bytes
  ensure-Room = elim (Bool-cases (ltb (writable_bytes b) len)) [
    | inl e ↦ rw e (make_space-Room (ltb→lt _ _ e))
    | inr e ↦ rw e (record {
      valid = v;
      same = refl;
      fits = omega (arith, ltb→le _ _ e, writable_bytes-eq b v);
      low = omega arith;
    })
  ]

-- A valid buffer that holds `bytes`.
pub record Queued (b : Buffer) (bytes : Bytes) : Type 0 where
  pub valid : IsValid b
  pub holds : contents b ≡ bytes

-- The prefix up to the writer index, after `memcpy` at the writer index.
take-overwrite :
    (store bytes : Bytes) (w : ℕ)
    → w ≤ length store
    → take (w + length bytes) (overwrite store w bytes) ≡ take w store ++ bytes
take-overwrite store bytes w h =
    rw (← append_assoc (take w store) bytes (drop (w + length bytes) store)) (
      take-append_exact (w + length bytes) (take w store ++ bytes) _
        (omega (arith, length-append (take w store) bytes, length-take w store)))

written :
    (b b' : Buffer) (bytes : Bytes)
    → Room b (length bytes) b'
    → Queued
        (has_written
          (record b' { store = overwrite b'.store b'.writer_index bytes })
          (length bytes))
        (contents b ++ bytes)
unfolding has_written
written b b' bytes r =
    let exact : add64 b'.writer_index (length bytes) ≡ b'.writer_index + length bytes =
      omega arith in
    rw exact (record {
      valid = omega (arith, length-overwrite b'.store b'.writer_index bytes);
      holds =
          ap (drop b'.reader_index) (take-overwrite b'.store bytes b'.writer_index r.valid.inside)
          ∙ drop-append_left b'.reader_index (take b'.writer_index b'.store) bytes
              (omega (arith, length-take b'.writer_index b'.store))
          ∙ ap (λ front. front ++ bytes) r.same;
    })

-- `Append` adds at the end of what is readable, whichever way it makes room.
pub append-Queued :
    (b : Buffer) (bytes : Bytes)
    → IsValid b
    → b.writer_index + length bytes < 2 ^ 63
    → Queued (append b bytes) (contents b ++ bytes)
unfolding append
append-Queued b bytes v h =
    written b (ensure_writable_bytes b (length bytes)) bytes (ensure-Room b (length bytes) v h)

retrieve_some :
    (b : Buffer) (n : ℕ)
    → IsValid b
    → n < readable_bytes b
    → Queued (record b { reader_index = add64 b.reader_index n }) (drop n (contents b))
retrieve_some b n v h =
    let bound : b.reader_index + n < b.writer_index = omega (arith, readable_bytes-sub b v) in
    let exact : add64 b.reader_index n ≡ b.reader_index + n = omega arith in
    rw exact (record {
      valid = omega arith;
      holds = sym (drop-drop n b.reader_index (take b.writer_index b.store));
    })

-- `Retrieve` takes from the front, and empties the buffer when it is asked for more.
pub retrieve-Queued : (b : Buffer) (n : ℕ) → IsValid b → Queued (retrieve b n) (drop n (contents b))
unfolding retrieve retrieve_all
retrieve-Queued b n v = elim (Bool-cases (ltb n (readable_bytes b))) [
  | inl e ↦ rw e (retrieve_some b n v (ltb→lt _ _ e))
  | inr e ↦ rw e (record {
    valid = omega arith;
    holds = sym (drop_all n (contents b) (omega (arith, ltb→le _ _ e, readable_bytes-eq b v)));
  })
]

-- Making room never moves the writer index forward, and data is copied down before the vector
-- grows: it grows only when readable bytes and `len` exceed its size.
pub ensure_no_growth :
    (b : Buffer) (len : ℕ)
    → IsValid b
    → length (contents b) + len ≤ length b.store
    → length (ensure_writable_bytes b len).store ≡ length b.store
unfolding ensure_writable_bytes make_space
ensure_no_growth b len v room =
    rw (writable_bytes-eq b v, moved b v)
      (ground (arith, length-contents b v, length-overwrite b.store 0 (contents b)))

pub append-writer-le :
    (b : Buffer) (bytes : Bytes)
    → IsValid b
    → b.writer_index + length bytes < 2 ^ 63
    → (append b bytes).writer_index ≤ b.writer_index + length bytes
unfolding append has_written
append-writer-le b bytes v h = omega (arith, (ensure-Room b (length bytes) v h).low)

pub retrieve-writer-le : (b : Buffer) (n : ℕ) → (retrieve b n).writer_index ≤ b.writer_index
unfolding retrieve retrieve_all
retrieve-writer-le b n = ground arith

-- `Retrieve(0)` on a buffer with something to read.
pub retrieve_zero : (b : Buffer) → IsValid b → 0 < length (contents b) → retrieve b 0 ≡ b
unfolding retrieve
retrieve_zero b v h =
    let exact : add64 b.reader_index 0 ≡ b.reader_index = omega arith in
    rw (readable_bytes-eq b v, lt→ltb 0 (length (contents b)) h, exact)
