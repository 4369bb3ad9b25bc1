-- ===== src/Config/Document/Network.antt =====
-- Documents of the settings that `ConfigParser::Parse` knows: the listening socket.
use network_lirbary.Common.{◌≡◌, [], ◌∷◌, some}
use network_lirbary.Common.Dict.{bytes_eq, lookup}
use network_lirbary.Common.Text.{codes}
use network_lirbary.Config.Document.Writers.{Writer, FitsInt}
use network_lirbary.Config.Parser.Network.{socket_block, network_block}
use network_lirbary.Config.Settings.{NetworkConfig, default_network, SocketConfig, default_socket}
use network_lirbary.Config.Yaml.{Yaml, get_safe, when}

-- What a document holds of the settings; the others have their defaults.
abbrev pub known_socket : SocketConfig → SocketConfig
known_socket c = record default_socket {
  so_reuseaddr = c.so_reuseaddr;
  so_reuseport = c.so_reuseport;
  tcp_nodelay = c.tcp_nodelay;
  tcp_keepalive = c.tcp_keepalive;
  so_rcvbuf = c.so_rcvbuf;
  so_sndbuf = c.so_sndbuf;
}

abbrev pub known_network : NetworkConfig → NetworkConfig
known_network c = record default_network {
  host = c.host;
  port = c.port;
  protocol = c.protocol;
  ip_version = c.ip_version;
  socket = known_socket c.socket;
}

module _ {y : Yaml} (w : Writer y) where
  open y use {Node}
  open w use {of_fields, of_string, of_bool, of_int, get_fields, string_back, bool_back, int_back}

  abbrev pub write_socket : SocketConfig → Node
  write_socket c = of_fields (
      (codes "so_reuseaddr", of_bool c.so_reuseaddr)
      ∷ (codes "so_reuseport", of_bool c.so_reuseport)
      ∷ (codes "tcp_nodelay", of_bool c.tcp_nodelay)
      ∷ (codes "tcp_keepalive", of_bool c.tcp_keepalive)
      ∷ (codes "so_rcvbuf", of_int c.so_rcvbuf)
      ∷ (codes "so_sndbuf", of_int c.so_sndbuf)
      ∷ [])

  abbrev pub write_network : NetworkConfig → Node
  write_network c = of_fields (
      (codes "host", of_string c.host)
      ∷ (codes "port", of_int c.port)
      ∷ (codes "protocol", of_string c.protocol)
      ∷ (codes "ip_version", of_string c.ip_version)
      ∷ (codes "socket", write_socket c.socket)
      ∷ [])

  pub socket_block-write :
      (c : SocketConfig)
      → FitsInt c.so_rcvbuf
      → FitsInt c.so_sndbuf
      → socket_block y (write_socket c) default_socket ≡ some (known_socket c)
  unfolding socket_block lookup bytes_eq get_safe
  socket_block-write c p0 p1 =
      simp (get_fields, bool_back, int_back c.so_rcvbuf p0, int_back c.so_sndbuf p1)

  pub network_block-write :
      (c : NetworkConfig)
      → FitsInt c.port
      → FitsInt c.socket.so_rcvbuf
      → FitsInt c.socket.so_sndbuf
      → network_block y (write_network c) default_network ≡ some (known_network c)
  unfolding network_block lookup bytes_eq get_safe when
  network_block-write c p0 p1 p2 =
      simp (get_fields, string_back, int_back c.port p0, socket_block-write c.socket p1 p2)
