-- ===== src/Echo/Server/Serve.antt =====
-- The echo server from its start on.
use mars_wrapper.Prelude.{
  ℕ, ◌≡◌, ◌≢◌, ◌∙◌, List, [], ◌∷◌, false, none, some, length, arith, if◌then◌else◌, ◌==◌,
}
use mars_wrapper.Echo.{
  epoll_add, epollin, Answers, failed, Listener, server_handler, echo_handler, buffer_size,
  dispatch, handle_server, handle_all, add_socket_handler,
}
use mars_wrapper.Prelude.Int.{pos}
use mars_wrapper.Echo.Server
use mars_wrapper.Echo.Server.{
  Net, opens, binds, listens, sets_flags, runs, is_negative, backlog, inaddr_any, main,
  server_handler_of,
}
use mars_wrapper.Echo.Receive.{only_in, IsConnected}
use mars_wrapper.Echo.Cycle.{cycles, echoed, Fits, handle_all-cycles}

-- The listener when the loop starts, for the server's socket `s`.
abbrev pub serving : ℕ → Listener
serving s = record {
  handlers = λ fd. if s == fd then some server_handler else none;
  actions = epoll_add s epollin ∷ [];
}

-- `main`, with one argument, leaves that listener if each call succeeds.
main-serving :
    (net : Net) (a : Server.Answers) (program port : List ℕ) (s : ℕ)
    → a.socket_result ≡ pos s
    → is_negative a.bind_result ≡ false
    → is_negative a.listen_result ≡ false
    → main net a (program ∷ port ∷ [])
      ≡ runs (serving s) (
          sets_flags (pos s) (net.with_nonblock a.flags)
          ∷ listens (pos s) backlog
          ∷ binds (pos s) inaddr_any (net.htons (net.atoi port))
          ∷ opens
          ∷ [])
unfolding main server_handler_of add_socket_handler
main-serving net a program port s is_fd bound hears = ground (arith, is_fd, bound, hears)

-- `accept` gives the socket `c`, and the new handler's buffer holds `bytes`.
abbrev pub accepts : ℕ → List ℕ → Answers
accepts c bytes = record { accepted = some c; fresh_buffer = bytes; received = failed }

-- A server that has just started accepts a client, whose data then comes in chunks of 1 to 999 bytes,
-- each in one readable event that a writable event follows: nothing faults, both sockets were added
-- to epoll for reading, and each chunk is sent back to the client, whole and once and in order. The
-- server's own socket still waits for clients.
pub handle_all-serving :
    (s c : ℕ) (buffer : List ℕ) (cs : List (List ℕ))
    → s ≢ c
    → length buffer ≡ buffer_size
    → Fits cs
    → (v : Listener) × (handle_all ((s, only_in, accepts c buffer) ∷ cycles c cs) (serving s)
        ≡ some v)
      × (v.actions ≡ echoed c cs (epoll_add c epollin ∷ epoll_add s epollin ∷ []))
      × (v.handlers s ≡ some server_handler)
unfolding handle_all dispatch handle_server add_socket_handler
handle_all-serving s c buffer cs other sized fits =
    let (v, run, _, acted, others) = handle_all-cycles c cs joined fits client in
    (v, rw (joins, handle_all) run, acted, others s other ∙ ground arith)
  where
    joined : Listener
    joined =
        add_socket_handler c epollin
          (echo_handler (record { fd = c; received = none; buffer = buffer })) (serving s)

    joins : dispatch s only_in (accepts c buffer) (serving s) ≡ some joined
    joins = ground arith

    client : IsConnected joined c
    client = record { received = none; buffer = buffer; held = ground arith; sized = sized }
