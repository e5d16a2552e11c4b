-- ===== src/Client/Sockets.antt =====
-- What the methods of the demo's TCP client do with sockets.
use mars_wrapper.Prelude.{ℕ, ◌<◌, ◌^◌, ◌≡◌, refl, sym, ap, List, [], ◌∷◌, if◌then◌else◌, arith}
use mars_wrapper.Prelude.Int.{ℤ}
use mars_wrapper.Host.{Host, network_bytes}
use mars_wrapper.Client.{
  Action, opens, connects, shuts, sends, receives, Net, TcpClient, Answers, ClientState,
  is_positive, new_client, socket_shutdown, connect, destroy_client, send_bytes, send_int, receive,
}

pub data Method : Type 0 where
  calls_connect : Answers → Method
  calls_send : List ℕ → Method
  calls_send_int : ℕ → Method
  calls_recv : ℕ → Method

-- The descriptors that were shut down, the newest first.
abbrev pub all_shut : List Action → List ℤ
all_shut [] = []
all_shut (shuts fd ∷ log) = fd ∷ all_shut log
all_shut (opens _ ∷ log) = all_shut log
all_shut (connects _ _ _ ∷ log) = all_shut log
all_shut (sends _ _ ∷ log) = all_shut log
all_shut (receives _ _ ∷ log) = all_shut log

-- The descriptors above 0 that `socket` gave, the newest first.
abbrev pub all_opened : List Action → List ℤ
all_opened [] = []
all_opened (opens fd ∷ log) = if is_positive fd then fd ∷ all_opened log else all_opened log
all_opened (shuts _ ∷ log) = all_opened log
all_opened (connects _ _ _ ∷ log) = all_opened log
all_opened (sends _ _ ∷ log) = all_opened log
all_opened (receives _ _ ∷ log) = all_opened log

-- The descriptor that is open, in front of those that were shut down.
abbrev holding : ℤ → List ℤ → List ℤ
holding fd shut = if is_positive fd then fd ∷ shut else shut

abbrev Balanced : ClientState → Type 0
Balanced (c, log) = all_opened log ≡ holding c.socket_desc (all_shut log)

socket_shutdown-Balanced :
    (client : ClientState)
    → Balanced client
    → all_opened ((socket_shutdown client).1) ≡ all_shut ((socket_shutdown client).1)
unfolding socket_shutdown
socket_shutdown-Balanced (c, log) balanced = ground (arith, balanced)

connect-Balanced :
    (net : Net) (a : Answers) (client : ClientState)
    → Balanced client
    → Balanced ((connect net a client).1)
unfolding connect socket_shutdown
connect-Balanced net a (c, log) balanced = ground (arith, balanced)

module _ ⦃h : Host⦄ (net : Net) where
  unfoldable pub apply_all : List Method → ClientState → ClientState
  apply_all [] client = client
  apply_all (calls_connect a ∷ ms) client = apply_all ms ((connect net a client).1)
  apply_all (calls_send bytes ∷ ms) client = apply_all ms (send_bytes bytes client)
  apply_all (calls_send_int value ∷ ms) client = apply_all ms (send_int value client)
  apply_all (calls_recv size ∷ ms) client = apply_all ms (receive size client)

  apply_all-Balanced :
      (ms : List Method) (client : ClientState) → Balanced client → Balanced (apply_all ms client)
  unfolding apply_all send_bytes send_int receive
  apply_all-Balanced [] client balanced = balanced
  apply_all-Balanced (calls_connect a ∷ ms) client balanced =
      apply_all-Balanced ms ((connect net a client).1) (connect-Balanced net a client balanced)
  apply_all-Balanced (calls_send bytes ∷ ms) (c, log) balanced =
      apply_all-Balanced ms (c, sends c.socket_desc bytes ∷ log) balanced
  apply_all-Balanced (calls_send_int value ∷ ms) (c, log) balanced =
      apply_all-Balanced ms (c, sends c.socket_desc (h.bytes32 (h.htonl value)) ∷ log) balanced
  apply_all-Balanced (calls_recv size ∷ ms) (c, log) balanced =
      apply_all-Balanced ms (c, receives c.socket_desc size ∷ log) balanced

  -- Whatever methods are called on a new client, and whatever the kernel answers: once the client is
  -- destroyed, the descriptors that were shut down are exactly those above 0 that `socket` gave, each
  -- as often as it was given, and in the same order.
  pub destroy_client-apply_all :
      (host : List ℕ) (port : ℕ) (ms : List Method)
      → let log = (destroy_client (apply_all ms (new_client host port, []))).1 in
        all_shut log ≡ all_opened log
  unfolding destroy_client
  destroy_client-apply_all host port ms =
      sym (socket_shutdown-Balanced _ (apply_all-Balanced ms (new_client host port, []) refl))

module _ ⦃h : Host⦄ where
  -- `SendInt` puts the number on the socket as four bytes, the most significant first, on every
  -- platform.
  pub send_int_lem :
      (value : ℕ) (c : TcpClient) (log : List Action)
      → value < 2 ^ 32
      → send_int value (c, log) ≡ (c, sends c.socket_desc (network_bytes value) ∷ log)
  unfolding send_int send_bytes
  send_int_lem value c log fits =
      ap (λ bytes. (c, sends c.socket_desc bytes ∷ log)) (h.bytes32-htonl value fits)
