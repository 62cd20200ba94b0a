-- ===== src/Log/Resolver.antt =====
-- The cached address and socket of the log server: `log_service_resolve_server` and
-- `log_service_send_udp` of log_service.c.
pub mod Sockets
use esp32c3_sms_gateway.Prelude.{
  ℕ, ◌%◌, ◌^◌, Bool, true, false, ◌&&◌, ◌||◌, Option, none, some, List, [], ◌∷◌, ◌++◌, length, ◌==◌,
  if◌then◌else◌,
}
use esp32c3_sms_gateway.Prelude.Text.{copy_str, bytes_eq}

-- `struct sockaddr_in`
pub record SockAddr : Type 0 where
  pub ip : ℕ
  pub port : ℕ

-- The `cached_syslog_…` variables; a socket of -1 is `none`.
pub record Resolver : Type 0 where
  pub ready : Bool
  pub server : List ℕ
  pub port : ℕ
  pub addr : SockAddr
  pub socket : Option ℕ

abbrev pub no_resolver : Resolver
no_resolver = record {
  ready = false;
  server = [];
  port = 0;
  addr = record { ip = 0; port = 0 };
  socket = none;
}

-- What the network functions do during a call; `sent_all` is whether `sendto` takes all bytes.
pub record Net : Type 0 where
  pub inet_pton : List ℕ → Option ℕ
  pub getaddrinfo : List ℕ → ℕ → Option SockAddr
  pub socket : Option ℕ
  pub sent_all : SockAddr → List ℕ → Bool

pub data SocketEvent : Type 0 where
  opened closed : ℕ → SocketEvent
  sent : ℕ → SockAddr → List ℕ → SocketEvent

-- The result of a call, the state behind it, and what it did to sockets.
pub record Sending : Type 0 where
  pub succeeded : Bool
  pub state : Resolver
  pub events : List SocketEvent

-- The address of the server: the text of one, or a look-up. `htons` keeps 16 bits of the port.
unfoldable pub lookup : Net → List ℕ → ℕ → Option SockAddr
lookup net server port = elim (net.inet_pton server) [
  | some ip ↦ some (record { ip = ip; port = port % 2 ^ 16 })
  | none ↦ net.getaddrinfo server port
]

abbrev pub close_event : Option ℕ → List SocketEvent
close_event none = []
close_event (some fd) = closed fd ∷ []

abbrev pub reset : Resolver → Resolver
reset st = record {
  ready = false;
  server = st.server;
  port = st.port;
  addr = st.addr;
  socket = none;
}

-- The new socket for an address that has been found.
abbrev pub open_socket : Option ℕ → SockAddr → List ℕ → ℕ → Resolver → Sending
open_socket none addr server port st = record {
  succeeded = false;
  state = record { ready = false; server = st.server; port = st.port; addr = addr; socket = none };
  events = close_event st.socket;
}
open_socket (some fd) addr server port st = record {
  succeeded = true;
  state = record {
    ready = true;
    server = copy_str 64 server;
    port = port;
    addr = addr;
    socket = some fd;
  };
  events = close_event st.socket ++ opened fd ∷ [];
}

abbrev pub resolve_anew : Net → Option SockAddr → List ℕ → ℕ → Resolver → Sending
resolve_anew net none server port st = record {
  succeeded = false;
  state = reset st;
  events = close_event st.socket;
}
resolve_anew net (some addr) server port st = open_socket net.socket addr server port st

-- A port of 0 stands for every port that is not positive.
unfoldable pub log_service_resolve_server : Net → List ℕ → ℕ → Resolver → Sending
log_service_resolve_server net server port st =
    if length server == 0 || port == 0
    then record { succeeded = false; state = st; events = [] }
    else if st.ready && (st.port == port && bytes_eq st.server server)
    then record { succeeded = true; state = st; events = [] }
    else resolve_anew net (lookup net server port) server port st

-- `sendto` and what follows it; without a socket it fails.
abbrev pub send_over : Net → List ℕ → Sending → Option ℕ → Sending
send_over net payload found none = record {
  succeeded = false;
  state = reset found.state;
  events = found.events;
}
send_over net payload found (some fd) =
    let addr = found.state.addr in
    if net.sent_all addr payload
    then record {
      succeeded = true;
      state = found.state;
      events = found.events ++ sent fd addr payload ∷ [];
    }
    else record {
      succeeded = false;
      state = reset found.state;
      events = found.events ++ sent fd addr payload ∷ closed fd ∷ [];
    }

unfoldable pub log_service_send_udp : Net → List ℕ → ℕ → List ℕ → Resolver → Sending
log_service_send_udp net server port payload st =
    let found = log_service_resolve_server net server port st in
    if found.succeeded then send_over net payload found found.state.socket else found
