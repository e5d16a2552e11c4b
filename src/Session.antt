-- ===== src/Session.antt =====
-- A whole session: the calls that the application and the mars library make, one after another, and
-- an abstract model of what the wrapper promises, in which there is no memory.
pub mod Refinement
pub mod Numbers
pub mod Leaks
pub mod Drain
pub mod Traffic
pub mod Threads
use Prim.Native.String.{String}
use mars_wrapper.Prelude.{
  ℕ, ◌+◌, ◌%◌, ◌^◌, ◌≤◌, ◌<◌, List, [], ◌∷◌, ◌++◌, Option, none, some, take, length, if◌then◌else◌,
  ◌==◌,
}
use mathlib.Core.Option
use mars_wrapper.Prelude.Int.{ℤ}
use mars_wrapper.Host.{Host}
use mars_wrapper.Buffer.{AutoBuffer}
use mars_wrapper.Mars.{start_task}
use mars_wrapper.Memory.{
  World, Pointer, Call, update, on_response, on_push, on_channel_status, to_stn,
}
use mars_wrapper.Message.{header_size}
use mars_wrapper.Message.Header.{len_of, body_of}
use mars_wrapper.Proxy.Owned.{Request, pending}
use mars_wrapper.Callback.{stn_callback}
use mars_wrapper.Callback.TaskEnd.{end_calls}
use mars_wrapper.Callback.Push.{push_calls}
use mars_wrapper.Callback.Status.{status_calls}
use mars_wrapper.Plus.{
  mars_plus, send_message, request_task, register_push_listener, register_channel_listener,
}

pub data Event (Buffer : Type 0) : Type 0 where
  -- by the application
  sends : List ℕ → ℕ → Pointer → Event Buffer
  registers_push : Pointer → Event Buffer
  registers_channel : Pointer → Event Buffer
  -- by the mars library
  asks : ℕ → Buffer → Event Buffer
  responds : ℕ → Buffer → Event Buffer
  pushes : ℕ → ℕ → ℕ → Buffer → Event Buffer
  ends : ℕ → ℕ → ℤ → Event Buffer
  reports : ℤ → ℤ → Event Buffer

-- The state that a call leaves; `none` is a fault.
abbrev pub state : {A : Type 0} → Option (A × World) → Option World
state none = none
state (some (a, w)) = some w

pub record Model : Type 0 where
  pub next_id : ℕ
  pub waiting : ℕ → Option Request
  pub push_to : Pointer
  pub status_to : Pointer
  pub calls : List Call

abbrev pub view : World → Model
view w = record {
  next_id = w.message_id;
  waiting = pending w;
  push_to = w.push_listener;
  status_to = w.channel_listener;
  calls = w.log;
}

abbrev pub response_calls : Option Request → List ℕ → List Call
response_calls none body = []
response_calls (some (none, sent)) body = []
response_calls (some (some callback, sent)) body = on_response callback body ∷ []

abbrev pub ended : Option Request → ℕ → ℤ → List Call
ended none error_type error_code = []
ended (some (callback, sent)) error_type error_code = end_calls callback error_type error_code

module _ ⦃h : Host⦄ {Buffer : Type 0} (ops : AutoBuffer Buffer) where
  -- The mars library calls the object that `init` handed to it.
  unfoldable pub step : Event Buffer → World → Option World
  step (sends body size callback) w = state (mars_plus.send_message body size callback w)
  step (registers_push listener) w = state (mars_plus.register_push_listener listener w)
  step (registers_channel listener) w = state (mars_plus.register_channel_listener listener w)
  step (asks taskid out) w = state ((stn_callback ops).req2buf taskid out w)
  step (responds taskid inbuffer) w = state ((stn_callback ops).buf2resp taskid inbuffer w)
  step (pushes channel_id cmdid taskid body) w =
      state ((stn_callback ops).on_push channel_id cmdid taskid body w)
  step (ends taskid error_type error_code) w =
      state ((stn_callback ops).on_task_end taskid error_type error_code w)
  step (reports status longlink_status) w =
      state ((stn_callback ops).report_connect_status status longlink_status w)

  -- A fault ends the session.
  unfoldable pub run : List (Event Buffer) → World → Option World
  run [] w = some w
  run (e ∷ es) w = Option.bind (step e w) (run es)

  -- What the wrapper promises for each call.
  unfoldable pub model_step : Event Buffer → Model → Model
  model_step (sends body size callback) m = record m {
    next_id = (m.next_id + 1) % 2 ^ 32;
    waiting = update m.waiting m.next_id (some (callback, take size body));
    calls = to_stn (start_task (request_task m.next_id)) ∷ m.calls;
  }
  model_step (registers_push listener) m = record m { push_to = listener }
  model_step (registers_channel listener) m = record m { status_to = listener }
  model_step (asks taskid out) m = m
  model_step (responds taskid inbuffer) m = record m {
    calls = response_calls (m.waiting taskid) (body_of (ops.bytes inbuffer)) ++ m.calls;
  }
  model_step (pushes channel_id cmdid taskid body) m = record m {
    next_id = (m.next_id + 1) % 2 ^ 32;
    calls = push_calls m.push_to (ops.bytes body) ++ m.calls;
  }
  model_step (ends taskid error_type error_code) m = record m {
    waiting = update m.waiting taskid none;
    calls = ended (m.waiting taskid) error_type error_code ++ m.calls;
  }
  model_step (reports status longlink_status) m = record m {
    calls = status_calls m.status_to longlink_status ++ m.calls;
  }

  unfoldable pub model_run : List (Event Buffer) → Model → Model
  model_run [] m = m
  model_run (e ∷ es) m = model_run es (model_step e m)

  -- What each call is given: sizes that fit an int and lie within the bytes that are there, and
  -- responses whose header announces no more bytes than have come.
  abbrev pub Sound : Event Buffer → Type 0
  Sound (sends body size callback) = (size < 2 ^ 31) × (size ≤ length body)
  Sound (asks taskid out) = Unit {0}
  Sound (responds taskid inbuffer) =
      (header_size + len_of (ops.bytes inbuffer) ≤ length (ops.bytes inbuffer))
      × (length (ops.bytes inbuffer) < 2 ^ 31)
  Sound (pushes channel_id cmdid taskid body) = length (ops.bytes body) < 2 ^ 31
  Sound (registers_push _) = Unit
  Sound (registers_channel _) = Unit
  Sound (ends _ _ _) = Unit
  Sound (reports _ _) = Unit

  abbrev pub AllSound : List (Event Buffer) → Type 0
  AllSound [] = Unit
  AllSound (e ∷ es) = Sound e × AllSound es
