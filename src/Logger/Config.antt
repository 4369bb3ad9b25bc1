-- ===== src/Logger/Config.antt =====
-- `LoggerConfig` and `ParseConfig` of the logging library: lib_logger/include/logger/log_common.h
-- and lib_logger/src/log_config.cc. A configuration string is a sequence of `key=value;`; a pair
-- that does not split into two parts is passed over, and an unknown key is ignored. The product in
-- a duration is exact here, where the C++ `long long` would overflow.
pub mod Numerals
pub mod Pairs
use network_lirbary.Common.{
  ℕ, zero, suc, ◌+◌, ◌-◌, ◌*◌, ◌%◌, ◌^◌, Bool, true, false, ◌&&◌, ◌==◌, ltb, leb, if◌then◌else◌,
  List, [], ◌∷◌, ◌++◌, map, Option, none, some, length, take, drop, Bytes,
}
use network_lirbary.Common.Dict.{bytes_eq}
use network_lirbary.Common.Text.{codes, is_empty, ℤ, pos, negsuc}
use Numerals.{stoi, stoll, stoull}

pub data LogLevel : Type 0 where
  trace debug info warn error fatal critical : LogLevel

pub record LoggerConfig : Type 0 where
  pub app_name : Bytes
  pub thread_name : Bytes
  pub console_enabled : Bool
  pub file_enabled : Bool
  pub file_path : Bytes
  pub syslog_enabled : Bool
  pub kafka_enabled : Bool
  pub kafka_broker : Bytes
  pub kafka_topic : Bytes
  pub kafka_partition : ℤ
  pub kafka_compression : Bytes
  pub syslog_facility : Bytes
  pub syslog_server : Bytes
  pub rotation_size : ℕ
  pub rotation_time : Bytes
  pub max_backups : ℤ
  pub rotation_compress : Bool
  pub severity : LogLevel
  pub format : Bytes
  pub timestamp_precision : Bytes
  pub include_metadata : Bool
  pub include_caller : Bool
  pub async : Bool
  pub async_queue_size : ℕ
  -- In milliseconds.
  pub flush_interval : ℤ
  pub buffer_size : ℕ
  pub batch_size : ℕ
  pub overflow_policy : Bytes

unfoldable pub default_config : LoggerConfig
default_config = record {
  app_name = [];
  thread_name = [];
  console_enabled = true;
  file_enabled = false;
  file_path = [];
  syslog_enabled = false;
  kafka_enabled = false;
  kafka_broker = [];
  kafka_topic = [];
  kafka_partition = negsuc 0;
  kafka_compression = codes "none";
  syslog_facility = codes "LOCAL0";
  syslog_server = [];
  rotation_size = 100 * 1024 * 1024;
  rotation_time = codes "24h";
  max_backups = pos 10;
  rotation_compress = false;
  severity = info;
  format = codes "text";
  timestamp_precision = codes "microsecond";
  include_metadata = true;
  include_caller = true;
  async = true;
  async_queue_size = 100000;
  flush_interval = pos 1000;
  buffer_size = 4096;
  batch_size = 100;
  overflow_policy = codes "discard_newest";
}

-- `std::getline` with a delimiter until it fails, from the characters of the token so far. A
-- token that the end of the text leaves empty is not there.
unfoldable pub tokens : ℕ → Bytes → Bytes → List Bytes
tokens delimiter token [] = if is_empty token then [] else token ∷ []
tokens delimiter token (c ∷ cs) =
    let next = tokens delimiter [] cs in
    let longer = tokens delimiter (token ++ c ∷ []) cs in
    if c == delimiter then token ∷ next else longer

abbrev pub split : Bytes → ℕ → List Bytes
split s delimiter = tokens delimiter [] s

-- `::toupper` in the C locale.
abbrev pub to_upper : ℕ → ℕ
to_upper c = if leb b'a' c && leb c b'z' then c - 32 else c

unfoldable pub string_to_log_level : Bytes → LogLevel
unfolding bytes_eq
string_to_log_level level =
    let s = map to_upper level in
    if bytes_eq s (codes "TRACE")
    then trace
    else if bytes_eq s (codes "DEBUG")
    then debug
    else if bytes_eq s (codes "INFO")
    then info
    else if bytes_eq s (codes "WARN")
    then warn
    else if bytes_eq s (codes "ERROR")
    then error
    else if bytes_eq s (codes "FATAL")
    then fatal
    else if bytes_eq s (codes "CRITICAL")
    then critical
    else info

-- The multiplier of a size, and how many characters its suffix has.
abbrev pub size_suffix : Bytes → ℕ × ℕ
size_suffix s =
    let suffix = map to_upper (drop (length s - 2) s) in
    if leb (length s) 2
    then (1, 0)
    else if bytes_eq suffix (codes "KB")
    then (1024, 2)
    else if bytes_eq suffix (codes "MB")
    then (1024 * 1024, 2)
    else if bytes_eq suffix (codes "GB")
    then (1024 * 1024 * 1024, 2)
    else if bytes_eq (drop (length s - 1) s) (codes "B")
    then (1, 1)
    else (1, 0)

-- A size with a numeral that `std::stoull` refuses is 100 MB.
abbrev pub sized : Option ℕ → ℕ → ℕ
sized none multiplier = 100 * 1024 * 1024
sized (some n) multiplier = (n * multiplier) % 2 ^ 64

pub parse_bytes : Bytes → ℕ
parse_bytes s =
    let (multiplier, k) = size_suffix s in sized (stoull (take (length s - k) s)) multiplier

abbrev pub duration_suffix : Bytes → ℕ × ℕ
duration_suffix s =
    if ltb 2 (length s) && bytes_eq (drop (length s - 2) s) (codes "ms")
    then (1, 2)
    else if bytes_eq (drop (length s - 1) s) (codes "s")
    then (1000, 1)
    else (1, 0)

abbrev pub lasting : Option ℤ → ℕ → ℤ
lasting none multiplier = pos 1000
lasting (some (pos n)) multiplier = pos (n * multiplier)
lasting (some (negsuc n)) multiplier = negsuc (suc n * multiplier - 1)

-- A duration with a numeral that `std::stoll` refuses is a second. `s.back()` of the empty text is
-- undefined; whatever it gives, the numeral is empty and is refused.
pub parse_duration : Bytes → ℤ
parse_duration s =
    let (multiplier, k) = duration_suffix s in lasting (stoll (take (length s - k) s)) multiplier

abbrev pub or_else {ℓ} : {A : Type ℓ} → Option A → A → A
or_else none d = d
or_else (some a) d = a

abbrev is_true : Bytes → Bool
is_true value = bytes_eq value (codes "true")

-- One key with its value.
unfoldable pub set_key : LoggerConfig → Bytes → Bytes → LoggerConfig
unfolding bytes_eq
set_key c key value =
    if bytes_eq key (codes "appname")
    then record c { app_name = value }
    else if bytes_eq key (codes "thread_name")
    then record c { thread_name = value }
    else if bytes_eq key (codes "console")
    then record c { console_enabled = is_true value }
    else if bytes_eq key (codes "logfile")
    then record c { file_enabled = true; file_path = value }
    else if bytes_eq key (codes "syslog")
    then record c { syslog_enabled = is_true value }
    else if bytes_eq key (codes "kafka")
    then record c { kafka_enabled = is_true value }
    else if bytes_eq key (codes "kafka_broker")
    then record c { kafka_broker = value }
    else if bytes_eq key (codes "kafka_topic")
    then record c { kafka_topic = value }
    else if bytes_eq key (codes "kafka_partition")
    then record c { kafka_partition = or_else (stoi value) c.kafka_partition }
    else if bytes_eq key (codes "kafka_compression")
    then record c { kafka_compression = value }
    else if bytes_eq key (codes "syslog_facility")
    then record c { syslog_facility = value }
    else if bytes_eq key (codes "syslog_server")
    then record c { syslog_server = value }
    else if bytes_eq key (codes "rotation_size")
    then record c { rotation_size = parse_bytes value }
    else if bytes_eq key (codes "rotation_time")
    then record c { rotation_time = value }
    else if bytes_eq key (codes "max_backups")
    then record c { max_backups = or_else (stoi value) c.max_backups }
    else if bytes_eq key (codes "rotation_compress")
    then record c { rotation_compress = is_true value }
    else if bytes_eq key (codes "severity")
    then record c { severity = string_to_log_level value }
    else if bytes_eq key (codes "format")
    then record c { format = value }
    else if bytes_eq key (codes "timestamp_precision")
    then record c { timestamp_precision = value }
    else if bytes_eq key (codes "include_metadata")
    then record c { include_metadata = is_true value }
    else if bytes_eq key (codes "include_caller")
    then record c { include_caller = is_true value }
    else if bytes_eq key (codes "async")
    then record c { async = is_true value }
    else if bytes_eq key (codes "async_queue_size")
    then record c { async_queue_size = or_else (stoull value) c.async_queue_size }
    else if bytes_eq key (codes "flush_interval")
    then record c { flush_interval = parse_duration value }
    else if bytes_eq key (codes "buffer_size")
    then record c { buffer_size = or_else (stoull value) c.buffer_size }
    else if bytes_eq key (codes "batch_size")
    then record c { batch_size = or_else (stoull value) c.batch_size }
    else if bytes_eq key (codes "overflow_policy")
    then record c { overflow_policy = value }
    else c

unfoldable pub set_pair : LoggerConfig → List Bytes → LoggerConfig
set_pair c (key ∷ (value ∷ [])) = set_key c key value
set_pair c _ = c

unfoldable pub set_pairs : LoggerConfig → List Bytes → LoggerConfig
unfolding set_pair
set_pairs c [] = c
set_pairs c (pair ∷ pairs) = set_pairs (set_pair c (split pair b'=')) pairs

-- The argument is a C string; `none` is the null pointer.
unfoldable pub parse_config : Option Bytes → LoggerConfig
unfolding set_pairs
parse_config none = default_config
parse_config (some config_string) = set_pairs default_config (split config_string b';')
