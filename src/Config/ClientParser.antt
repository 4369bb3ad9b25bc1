-- ===== src/Config/ClientParser.antt =====
-- `ConfigParser::ParseClient` of lib_network/src/config/config_parser.cc. Every exception is
-- caught, and what was read before it is kept, so a statement answers with the configuration in
-- either case.
pub mod Errors
use network_lirbary.Common.{true, false, [], Option, none, some, Bytes, Bool}
use network_lirbary.Common.Run.{Run, done, thrown, ◌>>>◌, left_behind}
use network_lirbary.Common.Text.{codes, ℤ}
use network_lirbary.Config.Settings.{SslConfig, Endpoint, ClientConfig, default_client}
use network_lirbary.Config.Yaml.{Yaml, ◌>>=◌, get_string, get_bool}

-- An assignment of a value that is read.
abbrev assigned {ℓ κ} : {A : Type ℓ} {C : Type κ} → C → (A → C) → Option A → Run C
assigned c put none = thrown c
assigned c put (some a) = done (put a)

-- A block on the part of a configuration.
abbrev part {ℓ κ} : {C : Type ℓ} {D : Type κ} → (D → C) → Run D → Run C
part put (done d) = done (put d)
part put (thrown d) = thrown (put d)

module _ (y : Yaml) where
  open y use {Node, load_file, get, as_string, as_int}

  -- `if (node[key]) { … }`, whose block works on `node[key]`.
  pub inside {ℓ} : {C : Type ℓ} → Option (Option Node) → (Node → C → Run C) → C → Run C
  inside none block c = thrown c
  inside (some none) block c = done c
  inside (some (some node)) block c = block node c

  pub endpoint_block : Node → Endpoint → Run Endpoint
  endpoint_block node e =
      inside (get node (codes "host"))
        (λ n e. assigned e (λ v. record e { host = v }) (as_string n)) e
      >>> inside (get node (codes "port"))
          (λ n e. assigned e (λ v. record e { port = v }) (as_int n))

  pub client_ssl_block : Node → SslConfig → Run SslConfig
  client_ssl_block node s =
      assigned s (λ v. record s { enabled = v }) (get_bool y node (codes "enabled") false)
      >>> (λ s.
          assigned s (λ v. record s { cert_file = v }) (get_string y node (codes "cert_file") []))
      >>> (λ s.
          assigned s (λ v. record s { key_file = v }) (get_string y node (codes "key_file") []))
      >>> (λ s. assigned s (λ v. record s { ca_file = v }) (get_string y node (codes "ca_file") []))

  -- The block under "client".
  pub client_block : Node → ClientConfig → Run ClientConfig
  client_block node c =
      assigned c (λ v. record c { mode = v }) (get_string y node (codes "mode") (codes "tcp"))
      >>> inside (get node (codes "connection"))
          (λ n c. part (λ e. record c { network = e }) (endpoint_block n c.network))
      >>> inside (get node (codes "ssl"))
          (λ n c. part (λ s. record c { ssl = s }) (client_ssl_block n c.ssl))

  pub parse_root : Option Node → ClientConfig → Run ClientConfig
  parse_root none c = thrown c
  parse_root (some yaml) c = inside (get yaml (codes "client")) client_block c

  -- `catch (...)` keeps what is there.
  pub parse_client : Bytes → ClientConfig
  parse_client filepath = left_behind (parse_root (load_file filepath) default_client)
