-- ===== src/Config/Document/Writers.antt =====
-- A writer of YAML documents: what the YAML library reads of a map, of a sequence and of a scalar.
use network_lirbary.Common.{◌≡◌, refl, ◌^◌, ◌<◌, true, false, List, [], ◌∷◌, map, some, Bool, Bytes}
use network_lirbary.Common.Dict.{lookup}
use network_lirbary.Common.Text.{ℤ, pos, negsuc}
use network_lirbary.Config.Yaml.{Yaml, read_sequence, read_each}

-- The range of `int`.
abbrev pub FitsInt : ℤ → Type 0
FitsInt (pos n) = n < 2 ^ 31
FitsInt (negsuc n) = n < 2 ^ 31

abbrev pub FitsLong : ℤ → Type 0
FitsLong (pos n) = n < 2 ^ 63
FitsLong (negsuc n) = n < 2 ^ 63

pub record Writer (y : Yaml) : Type 0 where
  pub of_fields : List (Bytes × y.Node) → y.Node
  pub of_list : List y.Node → y.Node
  pub of_string : Bytes → y.Node
  pub of_bool : Bool → y.Node
  pub of_int : ℤ → y.Node
  pub get_fields :
      (fields : List (Bytes × y.Node)) (key : Bytes)
      → y.get (of_fields fields) key ≡ some (lookup key fields)
  pub fields_map : (fields : List (Bytes × y.Node)) → y.is_sequence (of_fields fields) ≡ false
  pub list_sequence : (nodes : List y.Node) → y.is_sequence (of_list nodes) ≡ true
  pub items_list : (nodes : List y.Node) → y.items (of_list nodes) ≡ nodes
  pub string_back : (s : Bytes) → y.as_string (of_string s) ≡ some s
  pub bool_back : (b : Bool) → y.as_bool (of_bool b) ≡ some b
  pub int_back : (z : ℤ) → FitsInt z → y.as_int (of_int z) ≡ some z
  pub long_back : (z : ℤ) → FitsLong z → y.as_long (of_int z) ≡ some z

module _ {y : Yaml} (w : Writer y) where
  open w use {of_list, of_string, list_sequence, items_list, string_back}

  each_back : (ss : List Bytes) → read_each y y.as_string (map of_string ss) ≡ some ss
  unfolding read_each
  each_back [] = refl
  each_back (s ∷ ss) = rw (string_back s, each_back ss)

  pub strings_back :
      (ss : List Bytes) → read_sequence y y.as_string (some (of_list (map of_string ss))) ≡ some ss
  unfolding read_sequence
  strings_back ss =
      rw (list_sequence (map of_string ss), read_sequence)
        (rw (items_list (map of_string ss)) (each_back ss))
