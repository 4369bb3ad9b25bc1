-- ===== src/Server/Tests.antt =====
-- A kernel that grants every call and numbers the descriptors, and an OpenSSL that numbers its
-- contexts and takes every file.
use network_lirbary.Common.Dict.{bytes_eq}
use network_lirbary.Common.Process.{Process}
use network_lirbary.Common.Text.{codes, pos}
use network_lirbary.Common.{ℕ, suc, ◌≡◌, refl, true, false, List, [], ◌∷◌, none, some}
use network_lirbary.Config.Settings.{
  ServerConfig, default_server, ProtocolConfig, default_protocol, default_ssl,
}
use network_lirbary.Event.Listening.Descriptors.{Settles, register_server-Settles}
use network_lirbary.Event.Listening.Willing.{IsWilling}
use network_lirbary.Event.Listening.{System, register_server}
use network_lirbary.Security.TlsContext.{OpenSsl, init, equip, load, free_held}
use network_lirbary.Server.Runs.{
  IsSound, ServerCall, starts, stops, waits, reloads, run, run-IsSound,
}
use network_lirbary.Server.Services.{IsServing, start-IsServing}
use network_lirbary.Server.Tls.{start-ServesPlain}
use network_lirbary.Server.{Service, new, create, stream_service, start, destroy, tcp, accept_tls}

abbrev kernel : System
kernel = record {
  World = ℕ;
  socket = λ stream w. (some w, suc w);
  setsockopt = λ fd option w. (true, w);
  get_flags = λ fd w. (some 2, w);
  set_flags = λ fd flags w. (true, w);
  bind = λ fd port w. (true, w);
  listen = λ fd w. (true, w);
  close = λ fd w. w;
  spawn = λ w. (true, w);
  epoll_create = λ w. (true, w);
  eventfd = λ w. (some w, suc w);
  add_fd = λ fd w. (true, w);
}

abbrev openssl : OpenSsl ℕ
openssl = record {
  new_context = λ b w. (some w, suc w);
  use_certificate = λ i file w. (true, w);
  use_private_key = λ i file w. (true, w);
  check_private_key = λ i w. (true, w);
  free = λ i w. w;
}

kernel-IsWilling : IsWilling kernel
kernel-IsWilling = record {
  sockets = λ stream w. tt;
  options = λ fd option w. refl;
  flags_known = λ fd w. tt;
  flags_taken = λ fd flags w. refl;
  binds = λ fd port w. refl;
  listens = λ fd w. refl;
  watches = λ fd w. refl;
  polls = λ w. refl;
  spawns = λ w. refl;
  wakes = λ w. tt;
}

abbrev process : Process ℕ
process = record { world = 3; opened = []; binds = []; contexts = [] }

-- TCP on port 9000, UDP on 9001, and HTTP that is switched off.
abbrev feed : ProtocolConfig
feed = record default_protocol { name = codes "feed"; type = codes "tcp"; port = pos 9000 }

abbrev ticks : ProtocolConfig
ticks = record default_protocol { name = codes "ticks"; type = codes "udp"; port = pos 9001 }

abbrev web : ProtocolConfig
web = record default_protocol { name = codes "web"; type = codes "http"; enabled = false }

abbrev config : ServerConfig
config = record default_server { protocol_list = feed ∷ ticks ∷ web ∷ [] }

-- Trading over TLS, then a feed without it.
abbrev secret : ProtocolConfig
secret = record feed {
  port = pos 9443;
  ssl = record default_ssl { enabled = true; cert_file = codes "crt"; key_file = codes "key" };
}

abbrev mixed : ServerConfig
mixed = record default_server { protocol_list = secret ∷ feed ∷ [] }

abbrev trading : Service
trading = stream_service (new mixed) secret tcp

mixed-IsServing :
    IsServing kernel openssl kernel-IsWilling []
      (trading ∷ stream_service (new mixed) feed tcp ∷ [])
      (start kernel openssl (new mixed) process)
unfolding new create init equip load free_held
mixed-IsServing =
    start-IsServing kernel openssl kernel-IsWilling (new mixed) process
      (trading ∷ stream_service (new mixed) feed tcp ∷ []) refl refl (λ e. cc)
      ((λ e p. refl), ((λ e. cc), tt))

start-ServesPlain_example :
    accept_tls mixed-IsServing.3.0 (record { fd = 5; service = trading }) ≡ none
unfolding new bytes_eq
start-ServesPlain_example =
    start-ServesPlain kernel openssl (new mixed) process (secret ∷ []) feed mixed-IsServing.3.0
      (record { fd = 5; service = trading }) refl refl refl refl refl mixed-IsServing.0
      mixed-IsServing.3.1

abbrev calls : List ServerCall
calls = starts ∷ reloads config ∷ starts ∷ stops ∷ starts ∷ waits ∷ []

run-IsSound_example :
    IsSound (run kernel openssl (new config, process) calls).0
    × ((destroy (run kernel openssl (new config, process) calls).0).terminated ≡ false)
run-IsSound_example = run-IsSound kernel openssl config process calls

-- A kernel that has no room for another listening socket.
abbrev crowded : System
crowded = record kernel { bind = λ fd port w. (false, w) }

register_server-Settles_example : Settles [] (register_server crowded (pos 80) process)
register_server-Settles_example = register_server-Settles crowded process (pos 80) (λ fd w. refl)
