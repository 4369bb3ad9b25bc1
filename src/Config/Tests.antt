-- ===== src/Config/Tests.antt =====
-- A YAML library over trees.
use network_lirbary.Common.{
  ℕ, zero, suc, concat, map, ◌≡◌, refl, Bool, true, false, List, [], ◌∷◌, Option, none, some, Bytes,
  arith,
}
use network_lirbary.Common.Dict.{bytes_eq, lookup}
use network_lirbary.Common.Text.{codes, c_str, ℤ, pos}
use network_lirbary.Config.ClientParser.Errors.{parse_client-keeps}
use network_lirbary.Config.ClientParser.{parse_client}
use network_lirbary.Config.HotReload.Events.{Event, encode, reload_on, walk-encode}
use network_lirbary.Config.HotReload.{Watching, walk}
use network_lirbary.Config.LoggerString.RoundTrip.{
  IsValue, read_back, parse_config-generate_logger_config,
}
use network_lirbary.Config.LoggerString.{generate_logger_config}
use network_lirbary.Logger.Config.{parse_config}
use network_lirbary.Config.Document.Writers.{Writer}
use network_lirbary.Config.Document.{IsWritable, known_server, write_server, parse-write}
use network_lirbary.Config.Parser.{parse}
use network_lirbary.Config.Settings.{
  default_protocol, default_server, default_logging, ServerConfig, default_client, default_endpoint,
  LoggingConfig,
}
use network_lirbary.Config.Yaml.{Yaml, get_safe}

mutual
  data Tree : Type 0 where
    text : Bytes → Tree
    flag : Bool → Tree
    number : ℤ → Tree
    sequence : Trees → Tree
    mapping : Fields → Tree

  data Trees : Type 0 where
    nil : Trees
    cons : Tree → Trees → Trees

  data Fields : Type 0 where
    end : Fields
    field : Bytes → Tree → Fields → Fields

abbrev trees : List Tree → Trees
trees [] = nil
trees (t ∷ ts) = cons t (trees ts)

abbrev tree_list : Trees → List Tree
tree_list nil = []
tree_list (cons t ts) = t ∷ tree_list ts

abbrev fields : List (Bytes × Tree) → Fields
fields [] = end
fields ((k, t) ∷ fs) = field k t (fields fs)

abbrev field_list : Fields → List (Bytes × Tree)
field_list end = []
field_list (field k t fs) = (k, t) ∷ field_list fs

tree_list-trees : (ts : List Tree) → tree_list (trees ts) ≡ ts
tree_list-trees [] = refl
tree_list-trees (t ∷ ts) = rw (tree_list-trees ts)

field_list-fields : (fs : List (Bytes × Tree)) → field_list (fields fs) ≡ fs
field_list-fields [] = refl
field_list-fields ((k, t) ∷ fs) = rw (field_list-fields fs)

abbrev get_tree : Tree → Bytes → Option (Option Tree)
get_tree (mapping fs) key = some (lookup key (field_list fs))
get_tree (sequence ts) key = some none
get_tree _ key = none

abbrev is_sequence : Tree → Bool
is_sequence (sequence ts) = true
is_sequence _ = false

abbrev items : Tree → List Tree
items (sequence ts) = tree_list ts
items _ = []

abbrev as_text : Tree → Option Bytes
as_text (text s) = some s
as_text _ = none

abbrev as_flag : Tree → Option Bool
as_flag (flag b) = some b
as_flag _ = none

abbrev as_number : Tree → Option ℤ
as_number (number z) = some z
as_number _ = none

-- One file.
abbrev library : Tree → Yaml
library file = record {
  Node = Tree;
  load_file = λ path. some file;
  get = get_tree;
  is_sequence = is_sequence;
  items = items;
  as_string = as_text;
  as_bool = as_flag;
  as_int = as_number;
  as_long = as_number;
}

abbrev writer : (file : Tree) → Writer (library file)
writer file = record {
  of_fields = λ fs. mapping (fields fs);
  of_list = λ ts. sequence (trees ts);
  of_string = text;
  of_bool = flag;
  of_int = number;
  get_fields = λ fs key. rw (field_list-fields fs) refl;
  fields_map = λ fs. refl;
  list_sequence = λ ts. refl;
  items_list = tree_list-trees;
  string_back = λ s. refl;
  bool_back = λ b. refl;
  int_back = λ z h. refl;
  long_back = λ z h. refl;
}

-- A server with one protocol, "feed" on port 9000.
abbrev sample : ServerConfig
sample = record default_server {
  name = codes "orders";
  protocol_list = record default_protocol { name = codes "feed"; port = pos 9000 } ∷ [];
}

sample-IsWritable : IsWritable sample
sample-IsWritable = record {
  port = omega arith;
  so_rcvbuf = omega arith;
  so_sndbuf = omega arith;
  protocol_ports = (omega arith, tt);
  message_size = omega arith;
  concurrent_streams = omega arith;
  window_size = omega arith;
  http_port = omega arith;
  websocket_port = omega arith;
  tcp_port = omega arith;
  udp_port = omega arith;
  connections = omega arith;
  pool_size = omega arith;
  threshold = omega arith;
  requests = omega arith;
  metrics_port = omega arith;
}

abbrev file : Tree
file = mapping (field (codes "server") (write_server (writer (flag true)) true sample) end)

parse-write_example : parse (library file) [] ≡ some (known_server true sample)
parse-write_example = parse-write (writer file) true sample [] sample-IsWritable refl

-- `port: eighty` in a client's file.
abbrev client_file : Tree
client_file = mapping (
    field (codes "client")
      (mapping (
        field (codes "connection")
          (mapping (
            field (codes "host") (text (codes "10.0.0.1"))
              (field (codes "port") (text (codes "eighty")) end)))
          (field (codes "ssl") (mapping (field (codes "enabled") (flag true) end)) end)))
      end)

parse_client-keeps_example :
    parse_client (library client_file) []
    ≡ record default_client { network = record default_endpoint { host = codes "10.0.0.1" } }
unfolding lookup bytes_eq get_safe
parse_client-keeps_example =
    parse_client-keeps (library client_file) [] (codes "tcp") (codes "10.0.0.1") client_file
      (mapping (
        field (codes "connection")
          (mapping (
            field (codes "host") (text (codes "10.0.0.1"))
              (field (codes "port") (text (codes "eighty")) end)))
          (field (codes "ssl") (mapping (field (codes "enabled") (flag true) end)) end)))
      (mapping (
        field (codes "host") (text (codes "10.0.0.1"))
          (field (codes "port") (text (codes "eighty")) end)))
      (text (codes "10.0.0.1")) (text (codes "eighty")) refl refl refl refl refl refl refl refl

-- Debug messages to a file.
abbrev logging : LoggingConfig
logging = record default_logging {
  level = codes "debug";
  output = codes "file";
  file_path = codes "/tmp/a";
}

debug-IsValue : IsValue (codes "debug")
debug-IsValue = record {
  no_equals = ground arith;
  no_semicolon = ground arith;
  no_nul = ground arith;
}

text-IsValue : IsValue (codes "text")
text-IsValue = record {
  no_equals = ground arith;
  no_semicolon = ground arith;
  no_nul = ground arith;
}

path-IsValue : IsValue (codes "/tmp/a")
path-IsValue = record {
  no_equals = ground arith;
  no_semicolon = ground arith;
  no_nul = ground arith;
}

parse_config-generate_logger_config_example :
    parse_config (some (c_str (generate_logger_config logging))) ≡ read_back logging
parse_config-generate_logger_config_example =
    parse_config-generate_logger_config logging debug-IsValue text-IsValue path-IsValue

-- The file is there at the first change and broken at the second.
abbrev contents : ℕ → Option ServerConfig × ℕ
contents zero = (some default_server, 1)
contents (suc n) = (none, suc n)

-- A write, an access, and the end of writing.
abbrev events : List Event
events =
    record { wd = 1; mask = 2; cookie = 0; name = [] }
    ∷ record { wd = 1; mask = 1; cookie = 0; name = codes "a.yaml" }
    ∷ record { wd = 1; mask = 8; cookie = 0; name = [] }
    ∷ []

abbrev watching : Watching ℕ
watching = record { applied = []; failures = 0; world = 0 }

walk-encode_example :
    walk contents 3 (concat (map encode events)) watching ≡ reload_on contents events watching
walk-encode_example =
    walk-encode contents 3 events watching
      ((omega arith, omega arith), ((omega arith, omega arith), ((omega arith, omega arith), tt)))
      (omega arith)
