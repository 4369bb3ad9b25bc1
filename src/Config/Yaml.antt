-- ===== src/Config/Yaml.antt =====
-- The YAML library as a parameter, and the helpers at the top of
-- lib_network/src/config/config_parser.cc. An answer `none` is an exception of the library.
use network_lirbary.Common.{Bool, true, false, List, [], ◌∷◌, Option, none, some, Bytes}
use network_lirbary.Common.Text.{ℤ}

-- `get` is `node[key]`: it throws on a scalar, and a missing key gives an undefined node. The
-- readers are `as<T>()`, and `items` are what a sequence is iterated over.
pub record Yaml : Type 1 where
  pub Node : Type 0
  pub load_file : Bytes → Option Node
  pub get : Node → Bytes → Option (Option Node)
  pub is_sequence : Node → Bool
  pub items : Node → List Node
  pub as_string : Node → Option Bytes
  pub as_bool : Node → Option Bool
  pub as_int : Node → Option ℤ
  pub as_long : Node → Option ℤ

infixl 5 ◌>>=◌
abbrev pub ◌>>=◌ {ℓ κ} : {A : Type ℓ} {B : Type κ} → Option A → (A → Option B) → Option B
none >>= f = none
some a >>= f = f a

module _ (y : Yaml) where
  open y use {Node, get, is_sequence, items, as_string, as_bool, as_int, as_long}

  -- What is read of a node that is there, or the default.
  pub read_or {ℓ} : {A : Type ℓ} → (Node → Option A) → A → Option Node → Option A
  read_or read default none = some default
  read_or read default (some node) = read node

  unfoldable pub get_safe {ℓ} : {A : Type ℓ} → (Node → Option A) → Node → Bytes → A → Option A
  unfolding read_or
  get_safe read node key default = get node key >>= read_or read default

  unfoldable pub read_each {ℓ} : {A : Type ℓ} → (Node → Option A) → List Node → Option (List A)
  read_each read [] = some []
  read_each read (n ∷ ns) = do a ← read n; rest ← read_each read ns; some (a ∷ rest)

  -- The elements of a sequence; of anything else there are none.
  unfoldable pub read_sequence {ℓ} :
      {A : Type ℓ} → (Node → Option A) → Option Node → Option (List A)
  read_sequence read none = some []
  read_sequence read (some node) = elim (is_sequence node) [
    | true ↦ read_each read (items node)
    | false ↦ some []
  ]

  unfoldable pub get_string_vector : Node → Bytes → Option (List Bytes)
  get_string_vector node key = get node key >>= read_sequence as_string

  pub get_int_vector : Node → Bytes → Option (List ℤ)
  get_int_vector node key = get node key >>= read_sequence as_int

  -- `if (node[key]) { … }`, whose block works on `node[key]`.
  pub within {ℓ} : {C : Type ℓ} → (Node → C → Option C) → C → Option Node → Option C
  within block c none = some c
  within block c (some node) = block node c

  unfoldable pub when {ℓ} : {C : Type ℓ} → Node → Bytes → (Node → C → Option C) → C → Option C
  unfolding within
  when node key block c = get node key >>= within block c

  abbrev pub get_string : Node → Bytes → Bytes → Option Bytes
  get_string = get_safe as_string

  abbrev pub get_bool : Node → Bytes → Bool → Option Bool
  get_bool = get_safe as_bool

  abbrev pub get_int : Node → Bytes → ℤ → Option ℤ
  get_int = get_safe as_int

  abbrev pub get_long : Node → Bytes → ℤ → Option ℤ
  get_long = get_safe as_long
