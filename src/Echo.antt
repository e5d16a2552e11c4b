-- ===== src/Echo.antt =====
-- demo/TcpEchoServer/TcpEchoServer.h and TcpEchoServer.cpp: the server of the demo, which sends back
-- what it receives. What the kernel answers to a handler's calls is given to it.
pub mod Receive
pub mod Cycle
pub mod End
pub mod Client
pub mod Clients
pub mod Server
use mars_wrapper.Prelude.{
  ℕ, zero, suc, ◌+◌, ◌≡◌, List, [], ◌∷◌, Bool, true, false, Option, none, some, length, take, ltb,
  ◌==◌, if◌then◌else◌,
}
use mars_wrapper.Prelude.Int.{ℤ, pos, negsuc}
use mars_wrapper.Memory.{update}
use mars_wrapper.Memory.Range.{store_at}

-- EPOLLIN and EPOLLOUT, as the interest in a socket.
pub data Interest : Type 0 where
  epollin : Interest
  epollout : Interest

-- The calls of `epoll_ctl` and `send`.
pub data Action : Type 0 where
  epoll_add : ℕ → Interest → Action
  epoll_mod : ℕ → Interest → Action
  send : ℕ → List ℕ → Action

-- EchoHandler. `m_received` is indeterminate at first, which `none` stands for.
pub record Echo : Type 0 where
  pub fd : ℕ
  pub received : Option ℤ
  pub buffer : List ℕ

pub data Handler : Type 0 where
  server_handler : Handler
  echo_handler : Echo → Handler

-- SocketsListener; `actions` has the newest call first.
pub record Listener : Type 0 where
  pub handlers : ℕ → Option Handler
  pub actions : List Action

-- The flags of an event that the handlers look at.
pub record Events : Type 0 where
  pub hup : Bool
  pub err : Bool
  pub out : Bool
  pub inp : Bool

-- What `recv` gives: -1, or the bytes.
pub data Received : Type 0 where
  failed : Received
  got : List ℕ → Received

-- `accept` fails or gives a socket; the new handler's buffer holds indeterminate bytes.
pub record Answers : Type 0 where
  pub accepted : Option ℕ
  pub fresh_buffer : List ℕ
  pub received : Received

abbrev pub buffer_size : ℕ
buffer_size = 1000

unfoldable pub add_socket_handler : ℕ → Interest → Handler → Listener → Listener
add_socket_handler fd events handler l = record {
  handlers = update l.handlers fd (some handler);
  actions = epoll_add fd events ∷ l.actions;
}

unfoldable pub remove_socket : ℕ → Listener → Listener
remove_socket fd l = record l { handlers = update l.handlers fd none }

unfoldable pub update_socket : ℕ → Interest → Listener → Listener
update_socket fd events l = record l { actions = epoll_mod fd events ∷ l.actions }

-- ServerHandler::handle
unfoldable pub handle_server : Answers → Listener → Listener
handle_server answers l = elim answers.accepted [
  | none ↦ l
  | some client ↦
      add_socket_handler client epollin
        (echo_handler (record { fd = client; received = none; buffer = answers.fresh_buffer })) l
]

-- Nothing is sent for a number that is not positive.
abbrev pub send_received : ℕ → ℤ → List ℕ → List Action → List Action
send_received fd (pos zero) buffer actions = actions
send_received fd (pos (suc n)) buffer actions = send fd (take (suc n) buffer) ∷ actions
send_received fd (negsuc _) buffer actions = actions

-- The branch of EPOLLOUT.
unfoldable pub writable : Echo → Listener → Option (Echo × Listener)
writable e l = elim e.received [
  | none ↦ none
  | some n ↦ some (
    record e { received = some (pos 0) },
    update_socket e.fd epollin (record l { actions = send_received e.fd n e.buffer l.actions }),
  )
]

-- The byte behind the ones received is set to 0.
unfoldable pub terminated : ℕ → List ℕ → Option (List ℕ)
terminated n buffer = if ltb 0 n then store_at n (0 ∷ []) buffer else some buffer

-- The branch of EPOLLIN.
unfoldable pub readable : Received → Echo → Listener → Option (Echo × Listener)
readable failed e l = some (record e { received = some (negsuc 0) }, remove_socket e.fd l)
readable (got bs) e l = elim (store_at 0 bs e.buffer) [
  | none ↦ none
  | some b ↦ elim (terminated (length bs) b) [
    | none ↦ none
    | some b' ↦ some (
      record e { received = some (pos (length bs)); buffer = b' },
      if ltb 0 (length bs) then update_socket e.fd epollout l else remove_socket e.fd l,
    )
  ]
]

abbrev pub then_readable : Bool → Received → Option (Echo × Listener) → Option (Echo × Listener)
then_readable inp r none = none
then_readable false r (some (e, l)) = some (e, l)
then_readable true r (some (e, l)) = readable r e l

-- EchoHandler::handle
unfoldable pub handle_echo : Events → Answers → Echo → Listener → Option (Echo × Listener)
handle_echo events answers e l =
    if events.hup
    then some (e, remove_socket e.fd l)
    else if events.err
    then some (e, l)
    else then_readable events.inp answers.received
        (if events.out then writable e l else some (e, l))

-- The handler object as its call left it, unless it was taken out of the map.
abbrev pub put_back : ℕ → Option (Echo × Listener) → Option Listener
put_back fd none = none
put_back fd (some (e, l)) = elim (l.handlers fd) [
  | none ↦ some l
  | some _ ↦ some (record l { handlers = update l.handlers fd (some (echo_handler e)) })
]

-- One event of the loop in `run`.
unfoldable pub dispatch : ℕ → Events → Answers → Listener → Option Listener
dispatch fd events answers l = elim (l.handlers fd) [
  | none ↦ some l
  | some server_handler ↦ some (handle_server answers l)
  | some (echo_handler e) ↦ put_back fd (handle_echo events answers e l)
]

-- The events that `epoll_wait` gives, one after another.
unfoldable pub handle_all : List (ℕ × Events × Answers) → Listener → Option Listener
handle_all [] l = some l
handle_all ((fd, events, answers) ∷ rest) l = elim (dispatch fd events answers l) [
  | none ↦ none
  | some l' ↦ handle_all rest l'
]
