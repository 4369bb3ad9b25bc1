-- ===== src/Protocol/Http/Fragments.antt =====
-- The requests of a connection, however their bytes arrive.
use network_lirbary.Common.{
  ℕ, ◌+◌, ◌≤◌, ◌<◌, ◌≡◌, ◌^◌, refl, ap, ap₂, subst, List, [], ◌∷◌, ◌++◌, Option, none, some, length,
  take, Bytes, arith, length-append, length-drop, length-take, append_assoc, append-nil, concat,
}
use network_lirbary.Memory.Buffer.{Buffer, append}
use network_lirbary.Memory.Buffer.Contents.{
  IsValid, contents, Queued, append-Queued, append-writer-le,
}
use network_lirbary.Protocol.Http.{
  HttpContext, Parsed, incomplete, complete, throws, parse_request, buffer_source,
}
use network_lirbary.Protocol.Http.Resume.{
  bytes_source, resumed, parse_request-resumed, parse_request-ends,
}
use network_lirbary.Protocol.Http.Simulation.{Kept, Same, Alike, parse_request-Alike}

-- What is seen of a verdict; no more is read after an exception.
abbrev pub seen : Parsed Buffer → Parsed Bytes
seen (incomplete c b) = incomplete c (contents b)
seen (complete c b) = complete c (contents b)
seen (throws c b) = throws c []

abbrev pub verdict : Parsed Bytes → Parsed Bytes
verdict (incomplete c xs) = incomplete c xs
verdict (complete c xs) = complete c xs
verdict (throws c xs) = throws c []

-- The parser is called as the bytes arrive, each piece behind what it has left.
pub feed : ℕ → Parsed Buffer → List Bytes → Option (Parsed Buffer)
feed fuel p [] = some p
feed fuel (throws c b) (ys ∷ yss) = some (throws c b)
feed fuel (incomplete c b) (ys ∷ yss) = elim (parse_request buffer_source fuel c (append b ys)) [
  | none ↦ none
  | some p ↦ feed fuel p yss
]
feed fuel (complete c b) (ys ∷ yss) = elim (parse_request buffer_source fuel c (append b ys)) [
  | none ↦ none
  | some p ↦ feed fuel p yss
]

append-Kept :
    (w : ℕ) (b : Buffer) (xs ys : Bytes)
    → Kept w b xs
    → w + length ys < 2 ^ 63
    → Kept (w + length ys) (append b ys) (xs ++ ys)
append-Kept w b xs ys k room = record {
  queued =
      subst (λ zs. Queued (append b ys) (zs ++ ys)) k.queued.holds
        (append-Queued b ys k.queued.valid (omega (arith, k.low)));
  low = omega (arith, append-writer-le b ys k.queued.valid (omega (arith, k.low)), k.low);
}

some_verdict :
    (w : ℕ) (o : Option (Parsed Buffer)) (q : Parsed Bytes)
    → Alike w o (some q)
    → (p : Parsed Buffer) × (o ≡ some p) × Same w p q
some_verdict w none q a = absurd a
some_verdict w (some p) q a = (p, refl, a)

seen-Same : (w : ℕ) (p : Parsed Buffer) (q : Parsed Bytes) → Same w p q → seen p ≡ verdict q
seen-Same w (incomplete c b) (incomplete c' xs) s = ap₂ incomplete s.0 s.1.queued.holds
seen-Same w (complete c b) (complete c' xs) s = ap₂ complete s.0 s.1.queued.holds
seen-Same w (throws c b) (throws c' xs) s = ap (λ d. throws d []) s.0
seen-Same w (incomplete c b) (complete c' xs) s = absurd s
seen-Same w (incomplete c b) (throws c' xs) s = absurd s
seen-Same w (complete c b) (incomplete c' xs) s = absurd s
seen-Same w (complete c b) (throws c' xs) s = absurd s
seen-Same w (throws c b) (incomplete c' xs) s = absurd s
seen-Same w (throws c b) (complete c' xs) s = absurd s

-- Both have a verdict, and it is the same.
unfoldable pub Meets : Option (Parsed Buffer) → Option (Parsed Bytes) → Type 0
Meets o r =
    (p : Parsed Buffer) × (q : Parsed Bytes) × (o ≡ some p) × (r ≡ some q) × (seen p ≡ verdict q)

length-Kept : (w : ℕ) (b : Buffer) (xs : Bytes) → Kept w b xs → length xs ≤ w
length-Kept w b xs k =
    subst (λ ys. length ys ≤ w) k.queued.holds
      (omega (
        arith,
        k.low,
        length-drop b.reader_index (take b.writer_index b.store),
        length-take b.writer_index b.store,
      ))

-- One call on what was left and `ys`.
step-Same :
    (w f : ℕ) (c : HttpContext) (b : Buffer) (xs ys : Bytes)
    → Kept w b xs
    → w + length ys < 2 ^ 63
    → w + length ys < f
    → (p : Parsed Buffer) × (q : Parsed Bytes) × (parse_request buffer_source f c (append b ys)
        ≡ some p)
      × (parse_request bytes_source f c (xs ++ ys) ≡ some q)
      × Same (w + length ys) p q
step-Same w f c b xs ys k room fuel =
    let (q, e) =
      parse_request-ends f c (xs ++ ys)
        (omega (arith, length-append xs ys, length-Kept w b xs k)) in
    let alike : Alike (w + length ys) (parse_request buffer_source f c (append b ys)) (some q) =
      subst (Alike (w + length ys) (parse_request buffer_source f c (append b ys))) e (
        parse_request-Alike (w + length ys) f c (append b ys) (xs ++ ys)
          (append-Kept w b xs ys k room)) in
    let (p, d, s) = some_verdict (w + length ys) _ q alike in (p, q, d, e, s)

module _ (f : ℕ) where
  -- What `feed` comes to from a verdict, when there is more to come.
  Continues : List Bytes → Type 0
  Continues yss =
      (w : ℕ) (c : HttpContext) (b : Buffer) (xs ys : Bytes)
      → Kept w b xs
      → w + length (concat (ys ∷ yss)) < 2 ^ 63
      → w + length (concat (ys ∷ yss)) < f
      → Meets (feed f (incomplete c b) (ys ∷ yss))
          (parse_request bytes_source f c (xs ++ concat (ys ∷ yss)))

  complete_as :
      (c : HttpContext) (b : Buffer) (ys : Bytes) (yss : List Bytes)
      → feed f (complete c b) (ys ∷ yss) ≡ feed f (incomplete c b) (ys ∷ yss)
  unfolding feed
  complete_as c b ys yss = refl

  -- From the verdict of a first call on to the pieces that follow.
  onward :
      (w : ℕ) (p : Parsed Buffer) (q : Parsed Bytes) (zs : Bytes) (zss : List Bytes)
      → Continues zss
      → Same w p q
      → w + length (concat (zs ∷ zss)) < 2 ^ 63
      → w + length (concat (zs ∷ zss)) < f
      → Meets (feed f p (zs ∷ zss)) (resumed f q (concat (zs ∷ zss)))
  unfolding Continues Meets feed
  onward w (incomplete c b) (incomplete c' xs) zs zss go s room fuel =
      subst
        (λ d.
          Meets (feed f (incomplete c b) (zs ∷ zss))
            (parse_request bytes_source f d (xs ++ concat (zs ∷ zss))))
        s.0 (go w c b xs zs s.1 room fuel)
  onward w (complete c b) (complete c' xs) zs zss go s room fuel =
      subst
        (λ d.
          Meets (feed f (complete c b) (zs ∷ zss))
            (parse_request bytes_source f d (xs ++ concat (zs ∷ zss))))
        s.0 (rw (complete_as c b zs zss) (go w c b xs zs s.1 room fuel))
  onward w (throws c b) (throws c' xs) zs zss go s room fuel =
      (throws c b, _, refl, refl, ap (λ d. throws d []) s.0)
  onward w (incomplete c b) (complete c' xs) zs zss go s room fuel = absurd s
  onward w (incomplete c b) (throws c' xs) zs zss go s room fuel = absurd s
  onward w (complete c b) (incomplete c' xs) zs zss go s room fuel = absurd s
  onward w (complete c b) (throws c' xs) zs zss go s room fuel = absurd s
  onward w (throws c b) (incomplete c' xs) zs zss go s room fuel = absurd s
  onward w (throws c b) (complete c' xs) zs zss go s room fuel = absurd s

  feed-Continues : (yss : List Bytes) → Continues yss
  unfolding Continues feed Meets
  feed-Continues [] w c b xs ys k room fuel =
      let sum : length (ys ++ []) ≡ length ys = ap length (append-nil ys) in
      let (p, q, d, e, s) = step-Same w f c b xs ys k (omega arith) (omega arith) in
      rw (d, append-nil ys, e, feed) (p, q, refl, refl, seen-Same (w + length ys) p q s)
  feed-Continues (zs ∷ zss) w c b xs ys k room fuel =
      let rest : Bytes = concat (zs ∷ zss) in
      let sum = length-append ys rest in
      let (p, q, d, e, s) = step-Same w f c b xs ys k (omega arith) (omega arith) in
      let whole : parse_request bytes_source f c ((xs ++ ys) ++ rest) ≡ resumed f q rest =
        parse_request-resumed f f f c (xs ++ ys) rest q
          (omega (arith, length-append (xs ++ ys) rest, length-append xs ys, length-Kept w b xs k))
          (omega (arith, length-append (xs ++ ys) rest, length-append xs ys, length-Kept w b xs k))
          e in
      rw (d, ← append_assoc xs ys rest, whole, feed)
        (onward (w + length ys) p q zs zss (feed-Continues zss) s (omega arith) (omega arith))

-- A context's parser, called on each of several pieces of input as they arrive in the
-- connection's buffer behind what it left, returns, and its last verdict is the one that it gives
-- on a plain sequence of all the bytes: the same answer, the same context, and, unless an
-- exception escapes, the same bytes left. The buffer is valid, and its indices stay below 2^63;
-- `fuel` exceeds them.
pub feed-verdict :
    (fuel : ℕ) (c : HttpContext) (b : Buffer) (ys : Bytes) (yss : List Bytes)
    → IsValid b
    → b.writer_index + length (concat (ys ∷ yss)) < 2 ^ 63
    → b.writer_index + length (concat (ys ∷ yss)) < fuel
    → Meets
        (feed fuel (incomplete c b) (ys ∷ yss))
        (parse_request bytes_source fuel c (contents b ++ concat (ys ∷ yss)))
unfolding Continues
feed-verdict fuel c b ys yss v room enough =
    feed-Continues fuel yss b.writer_index c b (contents b) ys
      (record { queued = record { valid = v; holds = refl }; low = omega arith }) room enough
