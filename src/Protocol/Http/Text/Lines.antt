-- ===== src/Protocol/Http/Text/Lines.antt =====
-- The parser's pieces read back the lines that a client writes.
use network_lirbary.Common.{
  ℕ, ◌≡◌, ◌≢◌, refl, ap, false, ◌==◌, [], ◌∷◌, ◌++◌, some, length, Bytes, All, arith,
}
use network_lirbary.Memory.Buffer.Crlf.{Plain}
use network_lirbary.Protocol.Http.Text.{
  is_space, skip_spaces, word, read_word, read_words, find_colon, pop_carriage_return,
}

-- No space in it, and no colon in it.
abbrev pub Spaceless : Bytes → Type 0
Spaceless = All (λ c. is_space c ≡ false)

abbrev pub Colonless : Bytes → Type 0
Colonless = All (λ c. (c == b':') ≡ false)

pub Plain-append : (xs ys : Bytes) → Plain xs → Plain ys → Plain (xs ++ ys)
Plain-append [] ys p q = q
Plain-append (x ∷ xs) ys p q = (p.0, Plain-append xs ys p.1 q)

pub Spaceless-Plain : (xs : Bytes) → Spaceless xs → Plain xs
Spaceless-Plain [] p = tt
Spaceless-Plain (x ∷ xs) p = (no_return x p.0, Spaceless-Plain xs p.1)
  where
    no_return : (c : ℕ) → is_space c ≡ false → (c == 13) ≡ false
    no_return c d = ground arith

word_lem : (w rest : Bytes) → Spaceless w → word (w ++ 32 ∷ rest) ≡ (w, 32 ∷ rest)
unfolding word
word_lem [] rest p = refl
word_lem (c ∷ w) rest p = rw (p.0, word_lem w rest p.1)

last_word : (w : Bytes) → Spaceless w → word w ≡ (w, [])
unfolding word
last_word [] p = refl
last_word (c ∷ w) p = rw (p.0, last_word w p.1)

read_word_lem :
    (old w rest : Bytes)
    → Spaceless w
    → w ≢ []
    → read_word old (skip_spaces (w ++ 32 ∷ rest)) ≡ (w, 32 ∷ rest)
unfolding read_word skip_spaces
read_word_lem old [] rest p some_of = absurd (some_of refl)
read_word_lem old (c ∷ w) rest p some_of = rw (p.0) (word_lem (c ∷ w) rest p)

read_last : (old w : Bytes) → Spaceless w → w ≢ [] → read_word old (skip_spaces w) ≡ (w, [])
unfolding read_word skip_spaces
read_last old [] p some_of = absurd (some_of refl)
read_last old (c ∷ w) p some_of = rw (p.0) (last_word (c ∷ w) p)

pub read_words_lem :
    (old : Bytes × Bytes × Bytes) (m p v : Bytes)
    → Spaceless m × (m ≢ [])
    → Spaceless p × (p ≢ [])
    → Spaceless v × (v ≢ [])
    → read_words old (m ++ 32 ∷ (p ++ 32 ∷ v)) ≡ (m, p, v)
unfolding read_words skip_spaces
read_words_lem (a, b, c) m p v hm hp hv = rw (
  read_word_lem a m (p ++ 32 ∷ v) hm.0 hm.1,
  read_word_lem b p v hp.0 hp.1,
  read_last c v hv.0 hv.1,
)

pub find_colon_lem :
    (key rest : Bytes) → Colonless key → find_colon (key ++ b':' ∷ rest) ≡ some (length key)
unfolding find_colon
find_colon_lem [] rest p = refl
find_colon_lem (c ∷ key) rest p = rw (p.0, find_colon_lem key rest p.1)

pub pop_carriage_return-Plain : (xs : Bytes) → Plain xs → pop_carriage_return xs ≡ xs
unfolding pop_carriage_return
pop_carriage_return-Plain [] p = refl
pop_carriage_return-Plain (c ∷ []) p = rw (p.0)
pop_carriage_return-Plain (c ∷ (d ∷ cs)) p = ap (◌∷◌ c) (pop_carriage_return-Plain (d ∷ cs) p.1)
