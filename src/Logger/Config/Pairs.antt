-- ===== src/Logger/Config/Pairs.antt =====
-- Reading one `key=value;` with any text behind it.
use network_lirbary.Common.{
  ℕ, ◌≡◌, refl, ap, ◌∙◌, false, ◌==◌, ==_iff, if◌then◌else◌, [], ◌∷◌, ◌++◌, append-nil,
  append_assoc, All, All-append, Bytes,
}
use network_lirbary.Common.Text.{is_empty}
use network_lirbary.Logger.Config.{LoggerConfig, tokens, split, set_key, set_pair, set_pairs}

-- No character is the delimiter.
abbrev pub Without : ℕ → Bytes → Type 0
Without d = All (λ c. (c == d) ≡ false)

pub Without-append : (d : ℕ) (xs ys : Bytes) → Without d xs → Without d ys → Without d (xs ++ ys)
Without-append d xs ys p q = All-append (λ c. (c == d) ≡ false) xs ys p q

pub tokens-append :
    (d : ℕ) (token xs rest : Bytes)
    → Without d xs
    → tokens d token (xs ++ d ∷ rest) ≡ (token ++ xs) ∷ tokens d [] rest
unfolding tokens
tokens-append d token [] rest p = rw ((==_iff d d).1 refl, append-nil token)
tokens-append d token (x ∷ xs) rest p =
    rw (p.0) (tokens-append d (token ++ x ∷ []) xs rest p.1 ∙ rw (append_assoc token (x ∷ []) xs))

tokens_last :
    (d : ℕ) (token xs : Bytes)
    → Without d xs
    → tokens d token xs ≡ (if is_empty (token ++ xs) then [] else (token ++ xs) ∷ [])
unfolding tokens
tokens_last d token [] p = rw (append-nil token)
tokens_last d token (x ∷ xs) p =
    rw (p.0) (tokens_last d (token ++ x ∷ []) xs p.1 ∙ rw (append_assoc token (x ∷ []) xs))

set_pair-split :
    (c : LoggerConfig) (key value : Bytes)
    → Without b'=' key
    → Without b'=' value
    → set_pair c (split (key ++ b'=' ∷ value) b'=')
      ≡ (if is_empty value then c else set_key c key value)
unfolding set_pair
set_pair-split c key [] p q = rw (tokens-append b'=' [] key [] p, tokens_last b'=' [] [] tt)
set_pair-split c key (x ∷ value) p q =
    rw (tokens-append b'=' [] key (x ∷ value) p, tokens_last b'=' [] (x ∷ value) q)

-- A pair is read, or passed over where its value is empty, and the rest is read after it.
pub set_pairs-step :
    (c : LoggerConfig) (key value rest : Bytes)
    → Without b'=' key
    → Without b'=' value
    → Without b';' (key ++ b'=' ∷ value)
    → set_pairs c (split ((key ++ b'=' ∷ value) ++ b';' ∷ rest) b';')
      ≡ set_pairs (if is_empty value then c else set_key c key value) (split rest b';')
unfolding set_pairs
set_pairs-step c key value rest p q r =
    ap (set_pairs c) (tokens-append b';' [] (key ++ b'=' ∷ value) rest r)
    ∙ ap (λ x. set_pairs x (split rest b';')) (set_pair-split c key value p q)
