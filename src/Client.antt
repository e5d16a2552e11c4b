-- ===== src/Client.antt =====
-- demo/TcpEchoServer/TcpClient.h and TcpClient.cpp: the client of the demo. What the kernel answers is
-- given to it, and its calls go to a list.
pub mod Sockets
pub mod Main
use Prim.Native.String.{String}
use mars_wrapper.Prelude.{
  ℕ, zero, suc, ◌+◌, ◌%◌, ◌^◌, ◌-◌, List, [], ◌∷◌, length, Bool, true, false, Option, none, some,
  if◌then◌else◌, ltb, ◌==◌, ◌||◌,
}
use mars_wrapper.Prelude.Int.{ℤ, pos, negsuc}
use mars_wrapper.Host.{Host}
use mars_wrapper.Memory.Range.{store_at}

-- `connects` has the address and the port as they are handed to the kernel.
pub data Action : Type 0 where
  opens : ℤ → Action
  connects : ℤ → ℕ → ℕ → Action
  shuts : ℤ → Action
  sends : ℤ → List ℕ → Action
  receives : ℤ → ℕ → Action

-- `inet_addr`, `htons` and `atoi`.
pub record Net : Type 0 where
  pub inet_addr : List ℕ → ℕ
  pub htons : ℕ → ℕ
  pub atoi : List ℕ → ℤ

pub record TcpClient : Type 0 where
  pub host : List ℕ
  pub port : ℕ
  pub socket_desc : ℤ
  pub is_connected : Bool

-- What `socket` and `connect` return.
pub record Answers : Type 0 where
  pub socket_result : ℤ
  pub connect_result : ℤ

abbrev pub is_positive : ℤ → Bool
is_positive (pos n) = ltb 0 n
is_positive (negsuc _) = false

abbrev pub is_zero : ℤ → Bool
is_zero (pos n) = n == 0
is_zero (negsuc _) = false

abbrev pub is_minus_one : ℤ → Bool
is_minus_one (pos _) = false
is_minus_one (negsuc n) = n == 0

abbrev pub is_negative : ℤ → Bool
is_negative (pos _) = false
is_negative (negsuc _) = true

-- TcpClient(host, port)
abbrev pub new_client : List ℕ → ℕ → TcpClient
new_client host port = record {
  host = host;
  port = port;
  socket_desc = pos 0;
  is_connected = false;
}

abbrev pub ClientState : Type 0
ClientState = TcpClient × List Action

unfoldable pub socket_shutdown : ClientState → ClientState
socket_shutdown (c, log) = (
  record c { socket_desc = pos 0; is_connected = false },
  if is_positive c.socket_desc then shuts c.socket_desc ∷ log else log,
)

unfoldable pub connect : Net → Answers → ClientState → Bool × ClientState
connect net a client =
    let (c, log) = socket_shutdown client in
    let opened : TcpClient = record c { socket_desc = a.socket_result } in
    if is_minus_one a.socket_result
    then (c.is_connected, (opened, opens a.socket_result ∷ log))
    else (
      is_zero a.connect_result,
      (
        record opened { is_connected = is_zero a.connect_result },
        connects a.socket_result (net.inet_addr c.host) (net.htons c.port)
            ∷ opens a.socket_result
            ∷ log,
      ),
    )

abbrev pub get_host : TcpClient → List ℕ
get_host c = c.host

abbrev pub get_port : TcpClient → ℕ
get_port c = c.port

abbrev pub connected : TcpClient → Bool
connected c = c.is_connected

-- ~TcpClient()
unfoldable pub destroy_client : ClientState → ClientState
destroy_client client = socket_shutdown client

unfoldable pub send_bytes : List ℕ → ClientState → ClientState
send_bytes bytes (c, log) = (c, sends c.socket_desc bytes ∷ log)

unfoldable pub receive : ℕ → ClientState → ClientState
receive size (c, log) = (c, receives c.socket_desc size ∷ log)

unfoldable pub send_int : ⦃h : Host⦄ → ℕ → ClientState → ClientState
send_int ⦃h⦄ value client =
    let network_byte_order = h.htonl value in send_bytes (h.bytes32 network_byte_order) client

-- What `recv` gives: an error, or bytes.
pub data Received : Type 0 where
  failed : Received
  got : List ℕ → Received

-- A line that main prints: a text of its own, or the reply.
pub data Printed : Type 0 where
  line : String → Printed
  reply : List ℕ → Printed

-- The bytes before the first zero; `none` if there is no zero in the array.
unfoldable pub until_zero : List ℕ → Option (List ℕ)
until_zero [] = none
until_zero (c ∷ s) = elim (c == 0) [
  | true ↦ some []
  | false ↦ elim (until_zero s) [ none ↦ none | some t ↦ some (c ∷ t) ]
]

-- `server_reply` holds indeterminate bytes at first.
pub record MainAnswers : Type 0 where
  pub connecting : Answers
  pub length_result : ℤ
  pub send_result : ℤ
  pub received : Received
  pub server_reply : List ℕ

abbrev pub reply_size : ℕ
reply_size = 2000

unfoldable pub print_reply : MainAnswers → Option (List Printed)
print_reply a = elim a.received [
  | failed ↦ some (line "Recv failed" ∷ [])
  | got bytes ↦ elim (store_at 0 bytes a.server_reply) [
    | none ↦ none
    | some buffer ↦ elim (until_zero buffer) [
      | none ↦ none
      | some text ↦ some (line "Reply received\n" ∷ reply text ∷ [])
    ]
  ]
]

-- The right side of `||` is called only if the left is false.
unfoldable pub send_all : ⦃h : Host⦄ → MainAnswers → List ℕ → ClientState → Bool × ClientState
send_all a text client =
    let announced = send_int (length text % 2 ^ 32) client in
    if is_negative a.length_result
    then (true, announced)
    else (is_negative a.send_result, send_bytes text announced)

-- `(int)atoi` as a uint16_t.
abbrev pub port_of : ℤ → ℕ
port_of (pos n) = n % 2 ^ 16
port_of (negsuc n) = (2 ^ 16 - suc (n % 2 ^ 16)) % 2 ^ 16

-- The three arguments of the command line; what is printed, and the calls made, the newest first.
unfoldable pub main :
    ⦃h : Host⦄ → Net → MainAnswers → List ℕ → List ℕ → List ℕ → Option (List Printed × List Action)
main net a host port text =
    let (up, client) = connect net a.connecting (new_client host (port_of (net.atoi port)), []) in
    let (bad, client') = send_all a text client in
    let client'' = receive reply_size client' in
    elim (print_reply a) [
      | none ↦ none
      | some printed ↦
          let (c, log) = destroy_client client'' in
          some (
            line (if up then "Connection successfully" else "Connect failed")
                ∷ line (if bad then "Send failed" else "Data Send")
                ∷ printed,
            log,
          )
    ]
