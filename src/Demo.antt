-- ===== src/Demo.antt =====
-- demo/demo.cpp: a program that connects, sends one message, and prints what its listener hears.
pub mod Hello
use Prim.Native.String.{String}
use mars_wrapper.Prelude.{ℕ, List, [], ◌∷◌, ◌++◌, some, none, ◌==◌, if◌then◌else◌}
use mars_wrapper.Prelude.Int.{ℤ, pos}
use mars_wrapper.Host.{Host}
use mars_wrapper.Memory.{
  M, pure, ◌>>=◌, ◌>>◌, Call, on_response, on_error, on_success, on_push, on_channel_status, to_stn,
  to_base, to_appender, set_level, set_app_callback,
}
use mars_wrapper.Shortlink.{c_str}
use mars_wrapper.Plus.{mars_config, init, send_message, register_push_listener}

-- What `printf` of ResponseHandler is given.
pub data Line : Type 0 where
  response_received : List ℕ → Line
  message_send_failed : ℤ → Line
  message_send_ok : Line

-- The names of main's two handlers, local objects.
abbrev pub push_handler : ℕ
push_handler = 1

abbrev pub response_handler : ℕ
response_handler = 2

abbrev pub at_handler : ℕ → List Line → List Line
at_handler listener lines = if listener == response_handler then lines else []

-- PushHandler::onPush does nothing, and ResponseHandler prints; a body goes to `printf` by `c_str`, and
-- "%s" stops at its first zero.
abbrev pub prints : Call → List Line
prints (on_response listener message) = at_handler listener (response_received (c_str message) ∷ [])
prints (on_error listener err err_msg) = at_handler listener (message_send_failed err ∷ [])
prints (on_success listener) = at_handler listener (message_send_ok ∷ [])
prints (on_push _ _) = []
prints (on_channel_status _ _) = []
prints (to_stn _) = []
prints (to_base _) = []
prints (to_appender _) = []
prints (set_level _) = []
prints set_app_callback = []

-- All that a log of calls, the newest first, has printed, the newest first.
abbrev pub printed : List Call → List Line
printed [] = []
printed (c ∷ calls) = prints c ++ printed calls

abbrev pub hello : List ℕ
hello = b'h' ∷ b'e' ∷ b'l' ∷ b'l' ∷ b'o' ∷ []

-- `main` without the two calls of `_sleep`, in which the mars library works. `c_str` ends with a zero.
unfoldable pub main : ⦃h : Host⦄ → M ℤ
main = do
  _ ← init (mars_config "39.106.56.27" 9001)
  register_push_listener (some push_handler)
  _ ← send_message (hello ++ (0 ∷ [])) 5 (some response_handler)
  pure (pos 0)
