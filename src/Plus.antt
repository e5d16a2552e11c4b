-- ===== src/Plus.antt =====
-- include/mars_plus.h and src/mars_plus.cpp: what a program that uses the wrapper calls.
pub mod Prepare
pub mod Send
pub mod Pending
pub mod Replaced
use Prim.Native.String.{String}
use mars_wrapper.Prelude.{ℕ, ◌+◌, ◌%◌, ◌^◌, List, [], ◌∷◌, true, false, none, some}
use mars_wrapper.Prelude.Int.{ℤ, pos, to_int}
use mars_wrapper.Host.{Host}
use mars_wrapper.Task.{Task, channel_long, priority_normal}
use mars_wrapper.Xlog.{appender_async, level_verbose}
use mars_wrapper.Mars.{
  appender_set_console_log, appender_open, set_longlink_svr_addr, set_backup_ips, set_callback,
  on_create, on_foreground, makesure_longlink_connected, start_task,
}
use mars_wrapper.Memory.{
  World, Pointer, default_context, put_cell, M, pure, ◌>>=◌, ◌>>◌, call, to_stn, to_base,
  to_appender, set_level, set_app_callback, new_object, im_message, task_context, read_message,
}
use mars_wrapper.Message.{create, get_message_id, header_size}
use mars_wrapper.Proxy.{store_context}
use mars_wrapper.Callback.{message_cmdid}

pub record MarsConfig : Type 0 where
  pub host : String
  pub backup_ip : String
  pub port : ℕ

-- MarsConfig(host, port) leaves `backupIp` empty.
abbrev pub mars_config : String → ℕ → MarsConfig
mars_config host port = record { host = host; backup_ip = ""; port = port }

-- The build is not one for ANDROID. `ports` is a vector of uint16_t.
unfoldable pub init : MarsConfig → M ℤ
init config = do
  call (to_appender (appender_set_console_log true))
  call (to_appender (appender_open appender_async "./log" "marPlus" ""))
  call (set_level level_verbose)
  let ports = (config.port % 2 ^ 16) ∷ []
  call (to_stn (set_longlink_svr_addr config.host ports ""))
  call (to_stn (set_backup_ips config.host (config.backup_ip ∷ [])))
  call (to_stn set_callback)
  call set_app_callback
  call (to_base on_create)
  call (to_base (on_foreground true))
  call (to_stn makesure_longlink_connected)
  pure (pos 0)

abbrev pub request_task : ⦃h : Host⦄ → ℕ → Task
request_task ⦃h⦄ taskid = record h.default_task {
  taskid = taskid;
  cmdid = message_cmdid;
  channel_select = channel_long;
  need_authed = false;
  priority = priority_normal;
}

module _ ⦃h : Host⦄ where
  -- `new ImMessage(body, size)`: memory for the object, then the constructor.
  unfoldable pub new_message : List ℕ → ℤ → M ℕ
  new_message body size = do
    p ← new_object (im_message none)
    m ← create body size
    λ w. some (p, put_cell w p (some (im_message m)))

  -- The first part of `sendMessage`: the message and the TaskContext, with the number and the address
  -- that the rest goes on with. `size` is an uint32_t, and the constructor takes an int.
  unfoldable pub prepare : List ℕ → ℕ → Pointer → M (ℕ × Pointer)
  unfolding new_message
  prepare body size callback = do
    msg ← new_message body (to_int size)
    m ← read_message (some msg)
    taskid ← get_message_id m
    ctx ← new_object (
        task_context (record default_context {
          msg = some msg;
          size = (size + header_size) % h.size_mod % 2 ^ 32;
          resp_callback = callback;
        }))
    pure (taskid, some ctx)

  unfoldable pub send_message : List ℕ → ℕ → Pointer → M ℤ
  unfolding prepare
  send_message body size callback = do
    p ← prepare body size callback
    store_context p.0 p.1
    call (to_stn (start_task (request_task p.0)))
    pure (pos 0)

unfoldable pub register_push_listener : Pointer → M (Unit {0})
register_push_listener listener w = some (tt, record w { push_listener = listener })

unfoldable pub register_channel_listener : Pointer → M (Unit {0})
register_channel_listener listener w = some (tt, record w { channel_listener = listener })

-- The functions that a program calls.
pub record MarsPlus : Type 0 where
  pub init : MarsConfig → M ℤ
  pub send_message : List ℕ → ℕ → Pointer → M ℤ
  pub register_push_listener : Pointer → M (Unit {0})
  pub register_channel_listener : Pointer → M (Unit {0})

abbrev pub mars_plus : ⦃h : Host⦄ → MarsPlus
mars_plus = record {
  init = init;
  send_message = send_message;
  register_push_listener = register_push_listener;
  register_channel_listener = register_channel_listener;
}
