-- ===== src/Callback.antt =====
-- src/proxy/stn_callback.cpp: what the mars library calls on a push, for the bytes of a request,
-- with the bytes of a response, and at the end of a task. Buffers are those of `AutoBuffer`.
pub mod TaskEnd
pub mod Freed
pub mod ErrorCode
pub mod Request
pub mod Response
pub mod Push
pub mod Status
pub mod Overtaken
pub mod Answers
use Prim.Native.String.{String}
use mars_wrapper.Prelude.{
  ℕ, List, [], length, Bool, true, false, Option, none, some, if◌then◌else◌, ◌==◌,
}
use mars_wrapper.Prelude.Int.{ℤ, pos, negsuc, to_int}
use mars_wrapper.Task.{noop_task_id, ect_ok, err_code}
use mars_wrapper.Host.{Host}
use mars_wrapper.Buffer.{AutoBuffer}
use mars_wrapper.Memory.Range.{load_at}
use mars_wrapper.Memory.{
  World, Pointer, TaskContext, M, pure, ◌>>=◌, ◌>>◌, lift, call, on_push as push_call, on_response,
  on_error, on_success, on_channel_status, read_message, read_context, read_block,
}
use mars_wrapper.Message.{
  create, destroy, default_message, get_data, get_message, get_message_id, get_message_size,
  is_valid, parse,
}
use mars_wrapper.Proxy.{get_task_context, remove_task_context}

-- The command number of every request.
abbrev pub message_cmdid : ℕ
message_cmdid = 55

unfoldable pub get_push_listener : M Pointer
get_push_listener w = some (w.push_listener, w)

unfoldable pub get_channel_listener : M Pointer
get_channel_listener w = some (w.channel_listener, w)

tell_status : Pointer → ℤ → M (Unit {0})
tell_status none longlink_status = pure tt
tell_status (some l) longlink_status = call (on_channel_status l longlink_status)

unfoldable pub report_connect_status : ℤ → ℤ → M (Unit {0})
unfolding tell_status
report_connect_status status longlink_status = do
  listener ← get_channel_listener
  tell_status listener longlink_status

module _ ⦃h : Host⦄ where
  -- `&&` reads the message only if there is a listener.
  push_message : Pointer → Pointer → M (Unit {0})
  push_message none m = pure tt
  push_message (some l) m = do
    valid ← is_valid m
    if valid then (do body ← get_data m; call (push_call l body)) else pure tt

  unfoldable pub on_push : {Buffer : Type 0} → AutoBuffer Buffer → ℕ → ℕ → ℕ → Buffer → M (Unit {0})
  unfolding push_message
  on_push ops channel_id cmdid taskid body = do
    m ← create (ops.bytes body) (to_int (length (ops.bytes body)))
    listener ← get_push_listener
    push_message listener m
    destroy m

  -- The log line reads the number and the body of the message too.
  unfoldable pub build_echat_tcp_msg :
      {Buffer : Type 0} → AutoBuffer Buffer → Pointer → Buffer → M Buffer
  build_echat_tcp_msg ops m outbuffer = do
    _ ← get_message_id m
    _ ← get_data m
    size ← get_message_size m
    b ← read_block (get_message m)
    bytes ← lift (load_at 0 size b)
    pure (ops.write outbuffer bytes)

  build_found : {Buffer : Type 0} → AutoBuffer Buffer → Pointer → Buffer → M (Bool × Buffer)
  build_found ops none outbuffer = pure (false, outbuffer)
  build_found ops (some msg) outbuffer = do
    m ← read_message (some msg)
    out ← build_echat_tcp_msg ops m outbuffer
    pure (true, out)

  pub req2buf_found : {Buffer : Type 0} → AutoBuffer Buffer → Pointer → Buffer → M (Bool × Buffer)
  unfolding build_found
  req2buf_found ops none outbuffer = pure (false, outbuffer)
  req2buf_found ops (some ctx) outbuffer = do
    c ← read_context (some ctx)
    build_found ops c.msg outbuffer

  unfoldable pub req2buf : {Buffer : Type 0} → AutoBuffer Buffer → ℕ → Buffer → M (Bool × Buffer)
  unfolding req2buf_found
  req2buf ops taskid outbuffer = do ctx ← get_task_context taskid; req2buf_found ops ctx outbuffer

  pub respond : Pointer → List ℕ → M ℤ
  respond none inbuffer = pure (negsuc 0)
  respond (some callback) inbuffer = do
    (valid, m) ← parse default_message inbuffer (to_int (length inbuffer))
    body ← get_data m
    call (on_response callback body)
    destroy m
    pure (pos 0)

  pub buf2resp_found : Pointer → List ℕ → M ℤ
  unfolding respond
  buf2resp_found none inbuffer = pure (negsuc 0)
  buf2resp_found (some ctx) inbuffer = do
    c ← read_context (some ctx)
    respond c.resp_callback inbuffer

  unfoldable pub buf2resp : {Buffer : Type 0} → AutoBuffer Buffer → ℕ → Buffer → M ℤ
  unfolding buf2resp_found
  buf2resp ops taskid inbuffer = do
    ctx ← get_task_context taskid
    buf2resp_found ctx (ops.bytes inbuffer)

report_end : Pointer → ℕ → ℤ → M (Unit {0})
report_end none error_type error_code = pure tt
report_end (some callback) error_type error_code =
    if error_type == err_code ect_ok
    then call (on_success callback)
    else call (on_error callback error_code "request failed.")

pub end_found : ℕ → Pointer → ℕ → ℤ → M ℤ
unfolding report_end
end_found taskid none error_type error_code = pure (pos 0)
end_found taskid (some ctx) error_type error_code = do
  c ← read_context (some ctx)
  report_end c.resp_callback error_type error_code
  remove_task_context taskid
  pure (pos 0)

unfoldable pub on_task_end : ℕ → ℕ → ℤ → M ℤ
unfolding end_found
on_task_end taskid error_type error_code = do
  ctx ← get_task_context taskid
  end_found taskid ctx error_type error_code

-- The answers that do not depend on the state.
unfoldable pub makesure_authed : Bool
makesure_authed = true

unfoldable pub is_logoned : Bool
is_logoned = true

unfoldable pub on_new_dns : String → List String
on_new_dns host = []

-- The result, and the `int32_t` for `_cmdid`.
unfoldable pub get_longlink_identify_check_buffer : ℤ × ℤ
get_longlink_identify_check_buffer = (pos 1, to_int noop_task_id)

unfoldable pub on_longlink_identify_response : List ℕ → List ℕ → Bool
on_longlink_identify_response response_buffer identify_buffer_hash = false

-- TrafficData and RequestSync have empty bodies.
unfoldable pub traffic_data : ℤ → ℤ → M (Unit {0})
traffic_data send recv = pure tt

unfoldable pub request_sync : M (Unit {0})
request_sync = pure tt

-- mars::stn::Callback, the functions that the mars library calls.
pub record StnCallback (Buffer : Type 0) : Type 0 where
  pub makesure_authed : Bool
  pub traffic_data : ℤ → ℤ → M (Unit {0})
  pub on_new_dns : String → List String
  pub on_push : ℕ → ℕ → ℕ → Buffer → M (Unit {0})
  pub req2buf : ℕ → Buffer → M (Bool × Buffer)
  pub buf2resp : ℕ → Buffer → M ℤ
  pub on_task_end : ℕ → ℕ → ℤ → M ℤ
  pub report_connect_status : ℤ → ℤ → M (Unit {0})
  pub get_longlink_identify_check_buffer : ℤ × ℤ
  pub on_longlink_identify_response : List ℕ → List ℕ → Bool
  pub request_sync : M (Unit {0})

-- StnCallBack, which `init` hands to the library.
abbrev pub stn_callback : ⦃h : Host⦄ → {Buffer : Type 0} → AutoBuffer Buffer → StnCallback Buffer
stn_callback ops = record {
  makesure_authed = makesure_authed;
  traffic_data = traffic_data;
  on_new_dns = on_new_dns;
  on_push = on_push ops;
  req2buf = req2buf ops;
  buf2resp = buf2resp ops;
  on_task_end = on_task_end;
  report_connect_status = report_connect_status;
  get_longlink_identify_check_buffer = get_longlink_identify_check_buffer;
  on_longlink_identify_response = on_longlink_identify_response;
  request_sync = request_sync;
}
