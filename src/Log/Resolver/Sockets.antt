-- ===== src/Log/Resolver/Sockets.antt =====
-- At most one socket is open at a time, and lines go to addresses of the server they are for.
use esp32c3_sms_gateway.Prelude.{
  ℕ, ◌≡◌, ◌⊎◌, inl, inr, refl, sym, arith, true, false, Bool-cases, ◌&&◌, ◌||◌, Option, none, some,
  List, [], ◌∷◌, ◌++◌, length, ==_iff, ◌==◌, if◌then◌else◌,
}
use esp32c3_sms_gateway.Prelude.Text.{bytes_eq, bytes_eq_iff, copy_str}
use mathlib.Core.Path.{subst}
use esp32c3_sms_gateway.Log.Resolver.{
  SockAddr, Resolver, Net, SocketEvent, opened, closed, sent, Sending, lookup, close_event,
  open_socket, resolve_anew, log_service_resolve_server, send_over, log_service_send_udp,
}

-- The events are possible with one socket at most, open at the start and at the end as given, and
-- what is sent goes to good addresses over the open socket.
abbrev pub Trace : (SockAddr → Type 0) → Option ℕ → List SocketEvent → Option ℕ → Type 0
Trace Good s [] t = s ≡ t
Trace Good s (opened fd ∷ es) t = (s ≡ none) × Trace Good (some fd) es t
Trace Good s (closed fd ∷ es) t = (s ≡ some fd) × Trace Good none es t
Trace Good s (sent fd addr payload ∷ es) t = (s ≡ some fd) × Good addr × Trace Good (some fd) es t

pub Trace-append :
    (Good : SockAddr → Type 0) (s t u : Option ℕ) (es fs : List SocketEvent)
    → Trace Good s es t
    → Trace Good t fs u
    → Trace Good s (es ++ fs) u
Trace-append Good s t u [] fs h k = rw h k
Trace-append Good s t u (opened fd ∷ es) fs (a, h) k =
    (a, Trace-append Good (some fd) t u es fs h k)
Trace-append Good s t u (closed fd ∷ es) fs (a, h) k = (a, Trace-append Good none t u es fs h k)
Trace-append Good s t u (sent fd addr payload ∷ es) fs (a, g, h) k =
    (a, g, Trace-append Good (some fd) t u es fs h k)

close_event-Trace : (Good : SockAddr → Type 0) (s : Option ℕ) → Trace Good s (close_event s) none
close_event-Trace Good none = refl
close_event-Trace Good (some fd) = (refl, refl)

-- A socket is open exactly while the cache is ready, and then the cached address is one of the
-- cached server.
abbrev pub IsConsistent : (List ℕ → ℕ → SockAddr → Type 0) → Resolver → Type 0
IsConsistent Knows st =
    ((st.ready ≡ true) × ((fd : ℕ) × (st.socket ≡ some fd)) × Knows st.server st.port st.addr)
    ⊎ ((st.ready ≡ false) × (st.socket ≡ none))

-- Every address that a look-up finds is one of the server.
abbrev pub FindsKnown : (List ℕ → ℕ → SockAddr → Type 0) → Net → Type 0
FindsKnown Knows net =
    (server : List ℕ) (port : ℕ) (addr : SockAddr)
    → lookup net server port ≡ some addr
    → Knows server port addr

-- What a call leaves: a consistent state, and a possible trace.
abbrev pub IsCall :
    (List ℕ → ℕ → SockAddr → Type 0) → (SockAddr → Type 0) → Resolver → Sending → Type 0
IsCall Knows Good st c = IsConsistent Knows c.state × Trace Good st.socket c.events c.state.socket

module _ (Knows : List ℕ → ℕ → SockAddr → Type 0) (net : Net) (finds : FindsKnown Knows net)
    (server : List ℕ) (port : ℕ) (text : copy_str 64 server ≡ server) where
  -- A successful resolution leaves the server's address and an open socket.
  abbrev IsResolved : Sending → Type 0
  IsResolved c =
      c.succeeded ≡ true → ((fd : ℕ) × (c.state.socket ≡ some fd)) × Knows server port c.state.addr

  open_socket-IsCall :
      (new : Option ℕ) (addr : SockAddr) (st : Resolver)
      → Knows server port addr
      → IsCall Knows (Knows server port) st (open_socket new addr server port st)
        × IsResolved (open_socket new addr server port st)
  open_socket-IsCall none addr st known = (
    (inr (refl, refl), close_event-Trace (Knows server port) st.socket),
    λ e. absurd (false_true e),
  )
    where
      false_true : false ≡ true → ⊥
      false_true e = cc
  open_socket-IsCall (some fd) addr st known = (
    (
      inl (refl, (fd, refl), rw text known),
      Trace-append (Knows server port) st.socket none (some fd) (close_event st.socket)
          (opened fd ∷ []) (close_event-Trace (Knows server port) st.socket) (refl, refl),
    ),
    λ e. ((fd, refl), known),
  )

  resolve_anew-IsCall :
      (st : Resolver)
      → IsCall Knows
          (Knows server port)
          st
          (resolve_anew net (lookup net server port) server port st)
        × IsResolved (resolve_anew net (lookup net server port) server port st)
  resolve_anew-IsCall st = go (lookup net server port) (finds server port)
    where
      go :
          (found : Option SockAddr)
          → ((addr : SockAddr) → found ≡ some addr → Knows server port addr)
          → IsCall Knows (Knows server port) st (resolve_anew net found server port st)
            × IsResolved (resolve_anew net found server port st)
      go none known = (
        (inr (refl, refl), close_event-Trace (Knows server port) st.socket),
        λ e. absurd (false_true e),
      )
        where
          false_true : false ≡ true → ⊥
          false_true e = cc
      go (some addr) known = open_socket-IsCall net.socket addr st (known addr refl)

  -- A hit in the cache is for the same server and port.
  hit-IsResolved :
      (st : Resolver)
      → IsConsistent Knows st
      → (st.ready && (st.port == port && bytes_eq st.server server)) ≡ true
      → ((fd : ℕ) × (st.socket ≡ some fd)) × Knows server port st.addr
  hit-IsResolved st (inr (cold, none_open)) hit = absurd (cold_hit cold hit)
    where
      cold_hit :
          st.ready ≡ false → (st.ready && (st.port == port && bytes_eq st.server server)) ≡ true → ⊥
      cold_hit a b = ground arith
  hit-IsResolved st (inl (warm, socket, known)) hit = (
    socket,
    subst (λ p. Knows server p st.addr) same_port
        (subst (λ s. Knows s st.port st.addr) same_server known),
  )
    where
      same_port : st.port ≡ port
      same_port = ground (arith, hit, ==_iff st.port port)

      same_server : st.server ≡ server
      same_server = ground (arith, hit, bytes_eq_iff st.server server)

  resolve_server-IsCall :
      (st : Resolver)
      → IsConsistent Knows st
      → IsCall Knows (Knows server port) st (log_service_resolve_server net server port st)
        × IsResolved (log_service_resolve_server net server port st)
  unfolding log_service_resolve_server
  resolve_server-IsCall st good =
      go (Bool-cases (length server == 0 || port == 0))
        (Bool-cases (st.ready && (st.port == port && bytes_eq st.server server)))
    where
      go :
          ((length server == 0 || port == 0) ≡ true) ⊎ ((length server == 0 || port == 0) ≡ false)
          → ((st.ready && (st.port == port && bytes_eq st.server server)) ≡ true)
            ⊎ ((st.ready && (st.port == port && bytes_eq st.server server)) ≡ false)
          → IsCall Knows (Knows server port) st (log_service_resolve_server net server port st)
            × IsResolved (log_service_resolve_server net server port st)
      go (inl bad) k = rw bad ((good, refl), λ e. absurd (false_true e))
        where
          false_true : false ≡ true → ⊥
          false_true e = cc
      go (inr valid) (inr miss) = rw (valid, miss) (resolve_anew-IsCall st)
      go (inr valid) (inl hit) = rw (valid, hit) ((good, refl), λ e. hit-IsResolved st good hit)

  send_over-IsCall :
      (payload : List ℕ) (st : Resolver) (found : Sending) (fd : ℕ)
      → IsConsistent Knows found.state
      → Trace (Knows server port) st.socket found.events (some fd)
      → found.state.socket ≡ some fd
      → Knows server port found.state.addr
      → IsCall Knows (Knows server port) st (send_over net payload found (some fd))
  send_over-IsCall payload st found fd good trace e known =
      elim (Bool-cases (net.sent_all found.state.addr payload)) [
        | inl all ↦ rw all (
          good,
          Trace-append (Knows server port) st.socket (some fd) found.state.socket found.events _
              trace (refl, known, sym e),
        )
        | inr short ↦ rw short (
          inr (refl, refl),
          Trace-append (Knows server port) st.socket (some fd) none found.events _ trace
              (refl, known, (refl, refl)),
        )
      ]

  -- Where the name of the server fits its array and look-ups find addresses of the server, a call
  -- keeps the cache consistent: it closes the old socket before it opens another, keeps none open
  -- when it fails to send, and sends over the open socket to an address of this server.
  pub log_service_send_udp-IsCall :
      (payload : List ℕ) (st : Resolver)
      → IsConsistent Knows st
      → IsCall Knows (Knows server port) st (log_service_send_udp net server port payload st)
  unfolding log_service_send_udp
  log_service_send_udp-IsCall payload st good =
      let (made, resolved) = resolve_server-IsCall st good in
      go (log_service_resolve_server net server port st) made resolved
        (Bool-cases (log_service_resolve_server net server port st).succeeded)
    where
      go :
          (found : Sending)
          → IsCall Knows (Knows server port) st found
          → IsResolved found
          → (found.succeeded ≡ true) ⊎ (found.succeeded ≡ false)
          → IsCall Knows
              (Knows server port)
              st
              (if found.succeeded then send_over net payload found found.state.socket else found)
      go found made resolved (inr failed) = rw failed made
      go found made resolved (inl done) = rw done (over (resolved done))
        where
          over :
              ((fd : ℕ) × (found.state.socket ≡ some fd)) × Knows server port found.state.addr
              → IsCall Knows (Knows server port) st (send_over net payload found found.state.socket)
          over ((fd, e), known) =
              subst (λ s. IsCall Knows (Knows server port) st (send_over net payload found s))
                (sym e)
                (send_over-IsCall payload st found fd made.0
                  (subst (λ s. Trace (Knows server port) st.socket found.events s) e made.1) e
                  known)
