-- ===== src/Memory/Buffer/Crlf.antt =====
-- `FindCRLF` against its specification: the first line end among the readable bytes.
use network_lirbary.Common.{
  ℕ, zero, suc, ◌+◌, ◌≤◌, ◌==◌, ◌≡◌, refl, ap, ◌∙◌, ◌↔◌, false, ◌&&◌, none, some, [], ◌∷◌, ◌++◌,
  length, take, drop, Bytes, take_all, arith,
}
use network_lirbary.Memory.Buffer.{Buffer, search_crlf, find_crlf, readable_bytes}
use network_lirbary.Memory.Buffer.Contents.{IsValid, contents, peek_lem, readable_bytes-eq}

-- The bytes hold no "\r\n".
abbrev pub NoCrlf : Bytes → Type 0
NoCrlf bs = search_crlf bs ≡ none

-- A line with no carriage return in it.
abbrev pub Plain : Bytes → Type 0
Plain [] = Unit {0}
Plain (x ∷ xs) = ((x == 13) ≡ false) × Plain xs

pub find_crlf-eq : (b : Buffer) → IsValid b → find_crlf b ≡ search_crlf (contents b)
unfolding find_crlf
find_crlf-eq b v = ap search_crlf (
    peek_lem b (readable_bytes b) v (omega (arith, readable_bytes-eq b v))
    ∙ take_all _ (contents b) (omega (arith, readable_bytes-eq b v)))

pub search_crlf_first :
    (pre rest : Bytes)
    → NoCrlf (pre ++ 13 ∷ [])
    → search_crlf (pre ++ 13 ∷ 10 ∷ rest) ≡ some (length pre)
unfolding search_crlf
search_crlf_first [] rest p = refl
search_crlf_first (x ∷ []) rest p = ground arith
search_crlf_first (x ∷ (y ∷ pre)) rest p = ground (arith, search_crlf_first (y ∷ pre) rest)

-- A hit is a line end within the bytes, and no other one stands before it.
pub search_crlf_sound :
    (bs : Bytes) (k : ℕ)
    → search_crlf bs ≡ some k
    → (bs ≡ take k bs ++ 13 ∷ 10 ∷ drop (suc (suc k)) bs) × NoCrlf (take (suc k) bs)
unfolding search_crlf
search_crlf_sound [] k e = cc
search_crlf_sound (x ∷ []) k e = cc
search_crlf_sound (x ∷ (y ∷ r)) zero e = ground arith
search_crlf_sound (x ∷ (y ∷ r)) (suc k) e = ground (arith, search_crlf_sound (y ∷ r) k)

-- A line end that is there stays the first one.
pub search_crlf-more :
    (xs ys : Bytes) (k : ℕ)
    → search_crlf xs ≡ some k
    → (search_crlf (xs ++ ys) ≡ some k) × (k + 2 ≤ length xs)
unfolding search_crlf
search_crlf-more [] ys k e = cc
search_crlf-more (x ∷ []) ys k e = cc
search_crlf-more (x ∷ (y ∷ r)) ys zero e = ground arith
search_crlf-more (x ∷ (y ∷ r)) ys (suc k) e = ground (arith, search_crlf-more (y ∷ r) ys k)

pub Plain-NoCrlf : (line : Bytes) → Plain line → NoCrlf (line ++ 13 ∷ [])
unfolding search_crlf
Plain-NoCrlf [] p = refl
Plain-NoCrlf (x ∷ []) p = rw p.0
Plain-NoCrlf (x ∷ (y ∷ line)) p = rw (p.0, Plain-NoCrlf (y ∷ line) p.1)

abbrev Hit : Bytes → ℕ → Type 0
Hit bs k = (bs ≡ take k bs ++ 13 ∷ 10 ∷ drop (suc (suc k)) bs) × NoCrlf (take (suc k) bs)

front_Hit : (x y : ℕ) (r : Bytes) → Hit (x ∷ (y ∷ r)) zero → search_crlf (x ∷ (y ∷ r)) ≡ some zero
unfolding search_crlf
front_Hit x y r e = ground arith

behind_Hit :
    (x y : ℕ) (r : Bytes) (k : ℕ)
    → Hit (x ∷ (y ∷ r)) (suc k)
    → Hit (y ∷ r) k × (((x == 13) && (y == 10)) ≡ false)
unfolding search_crlf
behind_Hit x y r k e = ground arith

step_behind :
    (x y : ℕ) (r : Bytes) (k : ℕ)
    → ((x == 13) && (y == 10)) ≡ false
    → search_crlf (y ∷ r) ≡ some k
    → search_crlf (x ∷ (y ∷ r)) ≡ some (suc k)
unfolding search_crlf
step_behind x y r k h e = ground arith

no_Hit : (x k : ℕ) → ¬ Hit (x ∷ []) k
no_Hit x zero e = ground arith
no_Hit x (suc zero) e = ground arith
no_Hit x (suc (suc k)) e = ground arith

search_crlf_complete : (bs : Bytes) (k : ℕ) → Hit bs k → search_crlf bs ≡ some k
search_crlf_complete [] zero e = cc
search_crlf_complete [] (suc k) e = cc
search_crlf_complete (x ∷ []) k e = absurd (no_Hit x k e)
search_crlf_complete (x ∷ (y ∷ r)) zero e = front_Hit x y r e
search_crlf_complete (x ∷ (y ∷ r)) (suc k) e =
    let h = behind_Hit x y r k e in step_behind x y r k h.1 (search_crlf_complete (y ∷ r) k h.0)

-- `FindCRLF` on a valid buffer: it answers the offset `k` exactly if the readable bytes hold a line
-- end at `k` and none that begins earlier.
pub find_crlf_iff :
    (b : Buffer) (k : ℕ)
    → IsValid b
    → (find_crlf b ≡ some k) ↔ (
        (contents b ≡ take k (contents b) ++ 13 ∷ 10 ∷ drop (suc (suc k)) (contents b))
        × NoCrlf (take (suc k) (contents b)))
find_crlf_iff b k v =
    rw (find_crlf-eq b v) (search_crlf_sound (contents b) k, search_crlf_complete (contents b) k)
