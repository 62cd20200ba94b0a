-- ===== src/Log/Examples.antt =====
-- A line, and a run in which the server changes and sending fails at last.
use esp32c3_sms_gateway.Prelude.{
  ℕ, ◌%◌, ◌^◌, ◌≡◌, inr, refl, sym, ap, arith, true, false, none, some, List, [], ◌∷◌, ◌++◌, take,
}
use esp32c3_sms_gateway.Prelude.Text.{ascii, copy_str}
use esp32c3_sms_gateway.Log.Line.{
  error, Origin, line_head, log_service_severity, log_service_build_syslog_payload, read_priority,
  log_service_build_syslog_payload_lem,
}
use esp32c3_sms_gateway.Log.Resolver.{SockAddr, Net, lookup, no_resolver}
use esp32c3_sms_gateway.Log.Resolver.Sockets.{IsConsistent, FindsKnown}
use esp32c3_sms_gateway.Log.Output.{
  LogConfig, LogItem, Rounds, syslog_worker_task, syslog_worker_task-Trace,
}

abbrev origin : Origin
origin = record {
  timestamp = ascii "2024-05-01T10:00:00Z";
  hostname = ascii "gateway";
  ip_address = ascii "10.0.0.7";
}

log_service_build_syslog_payload_lem_example :
    (log_service_build_syslog_payload error origin (ascii "PDU") (ascii "no memory") 512
      ≡ take 511 (line_head error origin (ascii "PDU") ++ ascii "no memory"))
    × (read_priority
          (log_service_build_syslog_payload error origin (ascii "PDU") (ascii "no memory") 512)
        ≡ some (2, log_service_severity error))
log_service_build_syslog_payload_lem_example =
    log_service_build_syslog_payload_lem error origin (ascii "PDU") (ascii "no memory") 512
      (omega arith)

-- The port of the address is that of the server.
abbrev SamePort : List ℕ → ℕ → SockAddr → Type 0
SamePort server port addr = addr.port ≡ port % 2 ^ 16

abbrev good_net : Net
good_net = record {
  inet_pton = λ s. some 5;
  getaddrinfo = λ s p. none;
  socket = some 54;
  sent_all = λ a s. true;
}

abbrev bad_net : Net
bad_net = record {
  inet_pton = λ s. some 6;
  getaddrinfo = λ s p. none;
  socket = some 55;
  sent_all = λ a s. false;
}

good_net-FindsKnown : FindsKnown SamePort good_net
unfolding lookup
good_net-FindsKnown server port addr e =
    let same : record { ip = 5; port = port % 2 ^ 16 } ≡ addr = cc in sym (ap (λ a. a.port) same)

bad_net-FindsKnown : FindsKnown SamePort bad_net
unfolding lookup
bad_net-FindsKnown server port addr e =
    let same : record { ip = 6; port = port % 2 ^ 16 } ≡ addr = cc in sym (ap (λ a. a.port) same)

abbrev config : List ℕ → LogConfig
config server = record {
  forwarding_ready = true;
  syslog_enabled = true;
  syslog_server = server;
  syslog_port = 514;
}

abbrev lines : List LogItem
lines =
    record { payload = ascii "a"; config = config (ascii "10.0.0.5"); net = good_net }
    ∷ record { payload = ascii "b"; config = config (ascii "10.0.0.6"); net = bad_net }
    ∷ []

syslog_worker_task-Trace_example :
    let (later, events) = syslog_worker_task lines no_resolver in
    IsConsistent SamePort later × Rounds SamePort lines none events later.socket
unfolding copy_str
syslog_worker_task-Trace_example =
    syslog_worker_task-Trace SamePort lines no_resolver
      ((good_net-FindsKnown, refl), ((bad_net-FindsKnown, refl), tt)) (inr (refl, refl))
