-- ===== src/Config/LoggerString/RoundTrip.antt =====
-- What the logging library reads of the string.
use network_lirbary.Common.{
  ℕ, ◌≡◌, refl, ap, ◌∙◌, Bool, true, false, not, ◌||◌, if◌then◌else◌, [], ◌∷◌, ◌++◌, append_assoc,
  Bytes, some, arith,
}
use network_lirbary.Common.Dict.{bytes_eq}
use network_lirbary.Common.Text.{codes, is_empty, c_str}
use network_lirbary.Config.Settings.{LoggingConfig}
use network_lirbary.Config.LoggerString.{generate_logger_config}
use network_lirbary.Logger.Config.{
  LogLevel, LoggerConfig, default_config, tokens, split, set_key, set_pairs, parse_config,
  string_to_log_level,
}
use network_lirbary.Logger.Config.Pairs.{Without, Without-append, set_pairs-step}

-- A text that can stand as a value.
pub record IsValue (v : Bytes) : Type 0 where
  pub no_equals : Without b'=' v
  pub no_semicolon : Without b';' v
  pub no_nul : Without 0 v

-- The format where none is named.
abbrev pub or_text : Bytes → Bytes
or_text v = if is_empty v then codes "text" else v

-- What the string stands for.
abbrev pub read_back : LoggingConfig → LoggerConfig
read_back c = record default_config {
  severity = string_to_log_level c.level;
  format = or_text c.format;
  file_enabled = not (is_empty c.file_path);
  file_path = c.file_path;
  rotation_compress = c.compress;
}

abbrev key_value : Bytes → Bytes → Bytes
key_value key value = key ++ b'=' ∷ value

-- What follows the format: whether the file is named, its path, and the compression.
abbrev tail : Bool → Bytes → Bool → Bytes
tail named path compress =
    (if named
      then key_value (codes "logfile") path ++ b';' ∷ codes "console=true;"
      else codes "console=true;")
    ++ (if compress then codes "rotation_compress=true;" else [])

abbrev names_file : LoggingConfig → Bool
names_file c = bytes_eq c.output (codes "file") || not (is_empty c.file_path)

generate-eq :
    (c : LoggingConfig)
    → generate_logger_config c
      ≡ key_value (codes "severity") c.level
        ++ b';'
          ∷ (key_value (codes "format") c.format
              ++ b';' ∷ tail (names_file c) c.file_path c.compress)
unfolding generate_logger_config
generate-eq c = simp append_assoc

-- The configuration after each pair.
abbrev with_severity : LogLevel → LoggerConfig
with_severity s = record default_config { severity = s }

abbrev with_format : LogLevel → Bytes → LoggerConfig
with_format s f = record default_config { severity = s; format = f }

severity_key :
    (v : Bytes)
    → (if is_empty v then default_config else set_key default_config (codes "severity") v)
      ≡ with_severity (string_to_log_level v)
unfolding default_config set_key string_to_log_level
severity_key [] = refl
severity_key (x ∷ v) = refl

format_key :
    (s : LogLevel) (v : Bytes)
    → (if is_empty v then with_severity s else set_key (with_severity s) (codes "format") v)
      ≡ with_format s (or_text v)
unfolding default_config set_key
format_key s [] = refl
format_key s (x ∷ v) = refl

abbrev with_file : LogLevel → Bytes → Bytes → Bool → LoggerConfig
with_file s f path compress = record default_config {
  severity = s;
  format = f;
  file_enabled = not (is_empty path);
  file_path = path;
  rotation_compress = compress;
}

tail-absent :
    (s : LogLevel) (f : Bytes) (named compress : Bool)
    → set_pairs (with_format s f) (split (tail named [] compress) b';') ≡ with_file s f [] compress
unfolding default_config set_key set_pairs tokens
tail-absent s f true true = refl
tail-absent s f true false = refl
tail-absent s f false true = refl
tail-absent s f false false = refl

-- What follows the file's path.
abbrev options : Bool → Bytes
options compress =
    codes "console=true;" ++ (if compress then codes "rotation_compress=true;" else [])

options_key :
    (s : LogLevel) (f : Bytes) (x : ℕ) (path : Bytes) (compress : Bool)
    → set_pairs (with_file s f (x ∷ path) false) (split (options compress) b';')
      ≡ with_file s f (x ∷ path) compress
unfolding default_config set_pairs set_key tokens
options_key s f x path true = refl
options_key s f x path false = refl

tail-present :
    (s : LogLevel) (f : Bytes) (compress : Bool) (x : ℕ) (path : Bytes)
    → IsValue (x ∷ path)
    → set_pairs (with_format s f) (split (tail true (x ∷ path) compress) b';')
      ≡ with_file s f (x ∷ path) compress
unfolding default_config set_key set_pairs tokens
tail-present s f compress x path v =
    ap (λ t. set_pairs (with_format s f) (split t b';'))
      (append_assoc (key_value (codes "logfile") (x ∷ path)) (b';' ∷ codes "console=true;")
        (if compress then codes "rotation_compress=true;" else []))
    ∙ set_pairs-step (with_format s f) (codes "logfile") (x ∷ path) (options compress)
        (ground arith) v.no_equals (ground arith)
    ∙ options_key s f x path compress

tail_key :
    (s : LogLevel) (f : Bytes) (file compress : Bool) (path : Bytes)
    → IsValue path
    → set_pairs (with_format s f) (split (tail (file || not (is_empty path)) path compress) b';')
      ≡ with_file s f path compress
tail_key s f file compress [] v = tail-absent s f (file || false) compress
tail_key s f true compress (x ∷ path) v = tail-present s f compress x path v
tail_key s f false compress (x ∷ path) v = tail-present s f compress x path v

c_str-Without : (xs : Bytes) → Without 0 xs → c_str xs ≡ xs
unfolding c_str
c_str-Without [] p = refl
c_str-Without (x ∷ xs) p = rw (p.0) (ap (◌∷◌ x) (c_str-Without xs p.1))

file-Without :
    (path : Bytes) → Without 0 path → Without 0 (codes "logfile=" ++ path ++ codes ";console=true;")
file-Without path v =
    Without-append 0 (codes "logfile=" ++ path) (codes ";console=true;")
      (Without-append 0 (codes "logfile=") path (ground arith) v) (ground arith)

tail-Without :
    (named compress : Bool) (path : Bytes) → Without 0 path → Without 0 (tail named path compress)
tail-Without true true path v =
    Without-append 0 (codes "logfile=" ++ path ++ codes ";console=true;")
      (codes "rotation_compress=true;") (file-Without path v) (ground arith)
tail-Without true false path v =
    Without-append 0 (codes "logfile=" ++ path ++ codes ";console=true;") [] (file-Without path v)
      tt
tail-Without false true path v = ground arith
tail-Without false false path v = ground arith

generated-Without :
    (c : LoggingConfig)
    → IsValue c.level
    → IsValue c.format
    → IsValue c.file_path
    → Without 0 (generate_logger_config c)
generated-Without c lv fv pv = rw generate-eq (
    Without-append 0 (codes "severity=") _ (ground arith) (
      Without-append 0 c.level _ lv.no_nul (
        Without-append 0 (codes ";format=") _ (ground arith) (
          Without-append 0 c.format _ fv.no_nul
            (refl, tail-Without (names_file c) c.compress c.file_path pv.no_nul)))))

-- The level, the format and the path of a logging configuration hold no `=`, no `;` and no zero
-- byte. Then `ParseConfig` of the logging library reads the string that `GenerateLoggerConfig`
-- makes as this level, this format (text where none is named), this path, with the file on exactly
-- where the path is not empty, and this compression, with the defaults elsewhere.
pub parse_config-generate_logger_config :
    (c : LoggingConfig)
    → IsValue c.level
    → IsValue c.format
    → IsValue c.file_path
    → parse_config (some (c_str (generate_logger_config c))) ≡ read_back c
unfolding parse_config
parse_config-generate_logger_config c lv fv pv =
    let s = string_to_log_level c.level in
    rw (c_str-Without (generate_logger_config c) (generated-Without c lv fv pv), generate-eq c)
      (set_pairs-step default_config (codes "severity") c.level
          (key_value (codes "format") c.format ++ b';' ∷ tail (names_file c) c.file_path c.compress)
          (ground arith) lv.no_equals (ground arith)
        ∙ ap
            (λ x. set_pairs x (
              split
                (key_value (codes "format") c.format
                  ++ b';' ∷ tail (names_file c) c.file_path c.compress)
                b';'))
            (severity_key c.level)
        ∙ set_pairs-step (with_severity s) (codes "format") c.format
            (tail (names_file c) c.file_path c.compress) (ground arith) fv.no_equals (ground arith)
        ∙ ap (λ x. set_pairs x (split (tail (names_file c) c.file_path c.compress) b';'))
            (format_key s c.format)
        ∙ tail_key s (or_text c.format) (bytes_eq c.output (codes "file")) c.compress c.file_path
            pv)
