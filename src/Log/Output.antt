-- ===== src/Log/Output.antt =====
-- Where a line goes: `log_service_voutput`, the queue, and the task that sends what is queued.
use esp32c3_sms_gateway.Prelude.{
  ℕ, ◌+◌, ◌≡◌, ◌⊎◌, inl, inr, refl, Bool, true, false, Bool-cases, ◌&&◌, not, Option, List, [], ◌∷◌,
  ◌++◌, length, take, All, ltb, ◌==◌, if◌then◌else◌,
}
use esp32c3_sms_gateway.Prelude.Text.{copy_str}
use esp32c3_sms_gateway.Log.Line.{Level, Origin, log_service_build_syslog_payload}
use esp32c3_sms_gateway.Log.Resolver.{
  SockAddr, Resolver, Net, SocketEvent, Sending, log_service_send_udp,
}
use esp32c3_sms_gateway.Log.Resolver.Sockets.{
  Trace, IsConsistent, FindsKnown, IsCall, log_service_send_udp-IsCall,
}

-- `log_service_forwarding_ready`, and the fields of `g_app_config` that are read; a port of 0 stands
-- for every port that is not positive.
pub record LogConfig : Type 0 where
  pub forwarding_ready : Bool
  pub syslog_enabled : Bool
  pub syslog_server : List ℕ
  pub syslog_port : ℕ

unfoldable pub log_service_should_forward : LogConfig → Bool
log_service_should_forward cfg =
    cfg.forwarding_ready
    && (cfg.syslog_enabled && (not (length cfg.syslog_server == 0) && ltb 0 cfg.syslog_port))

pub data Output : Type 0 where
  -- A line for the queue, a format for the console, or nothing.
  queued console : List ℕ → Output
  dropped : Output

-- `log_service_vsyslog`; `formatted` is what `vsnprintf` would write into an array without end.
unfoldable pub log_service_vsyslog : Bool → Level → Origin → List ℕ → List ℕ → Output
log_service_vsyslog has_queue level o tag formatted =
    if has_queue
    then queued (log_service_build_syslog_payload level o tag (take 383 formatted) 512)
    else dropped

-- `log_service_voutput`; the console gets the format with a line end where that has room.
unfoldable pub log_service_voutput :
    LogConfig → Bool → Level → Origin → List ℕ → List ℕ → List ℕ → Output
log_service_voutput cfg has_queue level o tag format formatted =
    if log_service_should_forward cfg
    then log_service_vsyslog has_queue level o tag formatted
    else if ltb (length format + 3) 256
    then console (format ++ 13 ∷ 10 ∷ [])
    else console format

-- A line that the task takes from the queue, with the configuration and the network at that time.
pub record LogItem : Type 0 where
  pub payload : List ℕ
  pub config : LogConfig
  pub net : Net

-- One round of `syslog_worker_task`.
unfoldable pub syslog_round : LogItem → Resolver → Sending
syslog_round item st =
    if log_service_should_forward item.config
    then log_service_send_udp item.net item.config.syslog_server item.config.syslog_port
        item.payload st
    else record { succeeded = false; state = st; events = [] }

-- The rounds of the task: its state behind them, and all that happened to sockets.
unfoldable pub syslog_worker_task : List LogItem → Resolver → Resolver × List SocketEvent
syslog_worker_task [] st = (st, [])
syslog_worker_task (item ∷ items) st =
    let call = syslog_round item st in
    let (later, events) = syslog_worker_task items call.state in (later, call.events ++ events)

-- The name of the server fits its array, and look-ups find addresses of it.
abbrev pub IsFair : (List ℕ → ℕ → SockAddr → Type 0) → LogItem → Type 0
IsFair Knows item =
    FindsKnown Knows item.net × (copy_str 64 item.config.syslog_server ≡ item.config.syslog_server)

-- The addresses of the server that is configured when a line is taken from the queue.
abbrev pub IsOwn : (List ℕ → ℕ → SockAddr → Type 0) → LogItem → SockAddr → Type 0
IsOwn Knows item = Knows item.config.syslog_server item.config.syslog_port

-- The events of a run are those of its lines in their order, and what is sent for a line goes over
-- the open socket to an address of the line's own server.
abbrev pub Rounds :
    (List ℕ → ℕ → SockAddr → Type 0)
    → List LogItem
    → Option ℕ
    → List SocketEvent
    → Option ℕ
    → Type 0
Rounds Knows [] s events t = (events ≡ []) × (s ≡ t)
Rounds Knows (item ∷ items) s events t =
    (now : List SocketEvent) × ((rest : List SocketEvent) × ((mid : Option ℕ) × ((events
            ≡ now ++ rest)
          × Trace (IsOwn Knows item) s now mid
          × Rounds Knows items mid rest t)))

syslog_round-IsCall :
    (Knows : List ℕ → ℕ → SockAddr → Type 0) (item : LogItem) (st : Resolver)
    → IsFair Knows item
    → IsConsistent Knows st
    → IsCall Knows (IsOwn Knows item) st (syslog_round item st)
unfolding syslog_round
syslog_round-IsCall Knows item st fair good =
    go (Bool-cases (log_service_should_forward item.config))
  where
    go :
        (log_service_should_forward item.config ≡ true)
          ⊎ (log_service_should_forward item.config ≡ false)
        → IsCall Knows (IsOwn Knows item) st (syslog_round item st)
    go (inr off) = rw off (good, refl)
    go (inl on) = rw on (
        log_service_send_udp-IsCall Knows item.net fair.0 item.config.syslog_server
          item.config.syslog_port fair.1 item.payload st good)

-- Over any run of the task from a consistent state, with the configuration and the network changing
-- between the lines, where the names of the servers fit their array and `Knows` holds of every
-- address that a look-up finds for a server and a port: the state stays consistent, at most one
-- socket is open at any time, and whatever is sent for a line goes over the open socket to an
-- address that `Knows` gives to the server and the port configured at that line.
pub syslog_worker_task-Trace :
    (Knows : List ℕ → ℕ → SockAddr → Type 0) (items : List LogItem) (st : Resolver)
    → All (IsFair Knows) items
    → IsConsistent Knows st
    → let (later, events) = syslog_worker_task items st in
      IsConsistent Knows later × Rounds Knows items st.socket events later.socket
unfolding syslog_worker_task
syslog_worker_task-Trace Knows [] st fair good = (good, (refl, refl))
syslog_worker_task-Trace Knows (item ∷ items) st fair good =
    let now = syslog_round-IsCall Knows item st fair.0 good in
    let later = syslog_worker_task-Trace Knows items (syslog_round item st).state fair.1 now.0 in
    (later.0, (_, (_, (_, (refl, now.1, later.1)))))
