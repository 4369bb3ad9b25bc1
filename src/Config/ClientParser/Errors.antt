-- ===== src/Config/ClientParser/Errors.antt =====
-- What `ConfigParser::ParseClient` of lib_network/src/config/config_parser.cc answers for a file
-- that is refused in the middle.
use network_lirbary.Common.{◌≡◌, none, some, Bytes}
use network_lirbary.Common.Run.{thrown}
use network_lirbary.Common.Text.{codes}
use network_lirbary.Config.ClientParser.{
  inside, endpoint_block, client_block, parse_root, parse_client,
}
use network_lirbary.Config.Settings.{Endpoint, default_client, default_endpoint}
use network_lirbary.Config.Yaml.{Yaml, get_string}

module _ (y : Yaml) where
  open y use {Node, load_file, get, as_string, as_int}

  endpoint_block-throws :
      (host : Bytes) (e : Endpoint) (connection host_node port_node : Node)
      → get connection (codes "host") ≡ some (some host_node)
      → as_string host_node ≡ some host
      → get connection (codes "port") ≡ some (some port_node)
      → as_int port_node ≡ none
      → endpoint_block y connection e ≡ thrown (record e { host = host })
  unfolding endpoint_block inside
  endpoint_block-throws host e connection host_node port_node e5 e6 e7 e8 =
      rw (e5, endpoint_block) (rw (e6, endpoint_block) (rw (e7, endpoint_block) (rw e8)))

  client_block-throws :
      (mode : Bytes) (client connection : Node) (e : Endpoint)
      → get_string y client (codes "mode") (codes "tcp") ≡ some mode
      → get client (codes "connection") ≡ some (some connection)
      → endpoint_block y connection default_endpoint ≡ thrown e
      → client_block y client default_client
        ≡ thrown (record default_client { mode = mode; network = e })
  unfolding client_block inside
  client_block-throws mode client connection e e3 e4 h =
      rw (e3, client_block) (rw (e4, client_block) (rw (h, client_block)))

  -- A client's file whose mode and host can be read, and whose port is no number: `ParseClient`
  -- answers all the same, with the mode and the host of the file and the defaults for the port and
  -- for all that comes after it.
  pub parse_client-keeps :
      (filepath mode host : Bytes) (root client connection host_node port_node : Node)
      → load_file filepath ≡ some root
      → get root (codes "client") ≡ some (some client)
      → get_string y client (codes "mode") (codes "tcp") ≡ some mode
      → get client (codes "connection") ≡ some (some connection)
      → get connection (codes "host") ≡ some (some host_node)
      → as_string host_node ≡ some host
      → get connection (codes "port") ≡ some (some port_node)
      → as_int port_node ≡ none
      → parse_client y filepath
        ≡ record default_client { mode = mode; network = record default_endpoint { host = host } }
  unfolding parse_client parse_root inside
  parse_client-keeps filepath mode host root client connection host_node port_node e1 e2 e3 e4 e5 e6
        e7 e8 =
      rw (e1, parse_client)
        (rw (e2, parse_client)
          (rw (
            client_block-throws mode client connection (record default_endpoint { host = host }) e3
                e4
                (endpoint_block-throws host default_endpoint connection host_node port_node e5 e6 e7
                  e8),
            parse_client,
          )))
