-- ===== src/Config/Parser.antt =====
-- `ConfigParser::Parse` of lib_network/src/config/config_parser.cc. Where the YAML library throws
-- the configuration is lost, so the statements are a chain of results.
pub mod Network
pub mod Protocols
pub mod Platform
use Network.{network_block}
use Protocols.{protocol_item, legacy_protocols}
use Platform.{ssl_block, performance_block, resilience_block, observability_block}
use network_lirbary.Common.{true, false, List, [], ◌∷◌, ◌++◌, Option, none, some, Bytes, Bool}
use network_lirbary.Common.Text.{codes, ℤ}
use network_lirbary.Config.Settings.{ProtocolConfig, default_protocol, ServerConfig, default_server}
use network_lirbary.Config.Yaml.{Yaml, ◌>>=◌, get_string, get_bool, get_safe, when}

module _ (y : Yaml) where
  open y use {Node, load_file, get, is_sequence, items, as_string, as_int}

  -- The list form: one configuration for each element.
  unfoldable pub protocol_items : List Node → List ProtocolConfig → Option (List ProtocolConfig)
  protocol_items [] done = some done
  protocol_items (n ∷ ns) done = do
    pc ← protocol_item y n default_protocol
    protocol_items ns (done ++ pc ∷ [])

  unfoldable pub protocols_form : Bool → Node → ServerConfig → Option ServerConfig
  protocols_form true node c = do
    protocol_list ← protocol_items (items node) c.protocol_list
    some (record c { protocol_list = protocol_list })
  protocols_form false node c = do
    protocols ← legacy_protocols y node c.protocols
    some (record c { protocols = protocols })

  unfoldable pub protocols_block : Node → ServerConfig → Option ServerConfig
  protocols_block node c = protocols_form (is_sequence node) node c

  -- The block under "server".
  unfoldable pub server_block : Node → ServerConfig → Option ServerConfig
  server_block server c = do
    mode ← get_string y server (codes "mode") (codes "tcp")
    name ← get_string y server (codes "name") []
    version ← get_string y server (codes "version") []
    environment ← get_string y server (codes "environment") (codes "production")
    network ← when y server (codes "network") (network_block y) c.network
    with_protocols ← when y server (codes "protocols") protocols_block c
    ssl ← when y server (codes "ssl") (ssl_block y) c.ssl
    performance ← when y server (codes "performance") (performance_block y) c.performance
    resilience ← when y server (codes "resilience") (resilience_block y) c.resilience
    observability ← when y server (codes "observability") (observability_block y) c.observability
    some (record with_protocols {
      mode = mode;
      name = name;
      version = version;
      environment = environment;
      network = network;
      ssl = ssl;
      performance = performance;
      resilience = resilience;
      observability = observability;
    })

  -- `none`: the exception is printed and thrown on.
  unfoldable pub parse : Bytes → Option ServerConfig
  parse filepath = do
    yaml ← load_file filepath
    when y yaml (codes "server") server_block default_server
