-- ===== src/Config/Parser/Network.antt =====
-- `ConfigParser::Parse` of lib_network/src/config/config_parser.cc: the listening socket.
-- Each function is the block under the key of its name.
use network_lirbary.Common.{true, some, Option}
use network_lirbary.Common.Text.{codes, pos}
use network_lirbary.Config.Settings.{NetworkConfig, SocketConfig}
use network_lirbary.Config.Yaml.{Yaml, ◌>>=◌, get_string, get_bool, get_int, when}

module _ (y : Yaml) where
  open y use {Node}

  unfoldable pub socket_block : Node → SocketConfig → Option SocketConfig
  socket_block node c = do
    so_reuseaddr ← get_bool y node (codes "so_reuseaddr") true
    so_reuseport ← get_bool y node (codes "so_reuseport") true
    tcp_nodelay ← get_bool y node (codes "tcp_nodelay") true
    tcp_keepalive ← get_bool y node (codes "tcp_keepalive") true
    so_rcvbuf ← get_int y node (codes "so_rcvbuf") (pos 2097152)
    so_sndbuf ← get_int y node (codes "so_sndbuf") (pos 2097152)
    some (record c {
      so_reuseaddr = so_reuseaddr;
      so_reuseport = so_reuseport;
      tcp_nodelay = tcp_nodelay;
      tcp_keepalive = tcp_keepalive;
      so_rcvbuf = so_rcvbuf;
      so_sndbuf = so_sndbuf;
    })

  unfoldable pub network_block : Node → NetworkConfig → Option NetworkConfig
  network_block node c = do
    host ← get_string y node (codes "host") (codes "0.0.0.0")
    port ← get_int y node (codes "port") (pos 0)
    protocol ← get_string y node (codes "protocol") (codes "tcp")
    ip_version ← get_string y node (codes "ip_version") (codes "dual")
    socket ← when y node (codes "socket") socket_block c.socket
    some (record c {
      host = host;
      port = port;
      protocol = protocol;
      ip_version = ip_version;
      socket = socket;
    })
