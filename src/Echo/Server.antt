-- ===== src/Echo/Server.antt =====
-- How the echo server of the demo starts: the constructor of ServerHandler, that of SocketsListener,
-- and `main`, in demo/TcpEchoServer/TcpEchoServer.cpp.
pub mod Serve
use Prim.Native.String.{String}
use mars_wrapper.Prelude.{
  ℕ, ◌%◌, ◌^◌, List, [], ◌∷◌, length, Bool, true, false, Option, none, some, if◌then◌else◌, ◌==◌,
}
use mars_wrapper.Prelude.Int.{ℤ, pos, negsuc}
use mars_wrapper.Echo.{Listener, Handler, server_handler, epollin, add_socket_handler}

-- The calls that open the server's socket. `binds` has the address and the port that it is given.
pub data Call : Type 0 where
  opens : Call
  binds : ℤ → ℕ → ℕ → Call
  listens : ℤ → ℕ → Call
  sets_flags : ℤ → ℕ → Call
  closes : ℤ → Call

-- `htons` of an int, `atoi`, and `flags | O_NONBLOCK`.
pub record Net : Type 0 where
  pub htons : ℤ → ℕ
  pub atoi : List ℕ → ℤ
  pub with_nonblock : ℕ → ℕ

-- What `socket`, `bind`, `listen` and `fcntl` return.
pub record Answers : Type 0 where
  pub socket_result : ℤ
  pub bind_result : ℤ
  pub listen_result : ℤ
  pub flags : ℕ

-- The process may end by `exit`; the calls made have the newest first.
pub data Started (A : Type 0) : Type 0 where
  exits : ℕ → List Call → Started A
  runs : A → List Call → Started A
  returns : ℤ → Started A

abbrev pub is_negative : ℤ → Bool
is_negative (pos _) = false
is_negative (negsuc _) = true

abbrev pub backlog : ℕ
backlog = 100

-- htonl(INADDR_ANY)
abbrev pub inaddr_any : ℕ
inaddr_any = 0

-- ServerHandler(ip, port), with the descriptor that it leaves in `m_fd`. The address is not used.
unfoldable pub server_handler_of : Net → Answers → String → ℤ → Started ℤ
server_handler_of net a ip port =
    let fd = a.socket_result in
    let opened = opens ∷ [] in
    let bound = binds fd inaddr_any (net.htons port) ∷ opened in
    let listening = listens fd backlog ∷ bound in
    if is_negative fd
    then exits 1 opened
    else if is_negative a.bind_result
    then exits 1 bound
    else if is_negative a.listen_result
    then exits 1 listening
    else runs fd (sets_flags fd (net.with_nonblock a.flags) ∷ listening)

-- SocketsListener()
abbrev pub new_listener : Listener
new_listener = record { handlers = λ _. none; actions = [] }

-- ~SocketsListener()
abbrev pub destroy_listener : ℤ → List Call
destroy_listener epoll_fd = closes epoll_fd ∷ []

abbrev pub descriptor : ℤ → ℕ
descriptor (pos n) = n
descriptor (negsuc _) = 0

-- What `main` has set up when it enters the loop of `run`, for the arguments of the command line, the
-- program's name included.
unfoldable pub main : Net → Answers → List (List ℕ) → Started Listener
main net a (program ∷ port ∷ []) = elim (server_handler_of net a "39.106.56.27" (net.atoi port)) [
  | exits status calls ↦ exits status calls
  | returns status ↦ returns status
  | runs fd calls ↦
      runs (add_socket_handler (descriptor fd) epollin server_handler new_listener) calls
]
main net a [] = returns (negsuc 0)
main net a (program ∷ []) = returns (negsuc 0)
main net a (program ∷ port ∷ more ∷ rest) = returns (negsuc 0)
