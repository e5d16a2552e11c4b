-- ===== src/Mars.antt =====
-- What the mars library offers to a program that uses it, as the calls that can be made: the functions that
-- libs/mars/include/mars/stn/stn_logic.h, baseevent/base_logic.h and xlog/appender.h declare. What the
-- library does in them is not in the repository. Mars/Answers has the meaning of the numbers that it is
-- given back.
pub mod Answers
pub mod Errors
use Prim.Native.String.{String}
use mars_wrapper.Prelude.{ℕ, List, Bool}
use mars_wrapper.Prelude.Int.{ℤ}
use mars_wrapper.Task.{Task}
use mars_wrapper.App.{ProxyInfo}
use mars_wrapper.Xlog.{AppenderMode}

-- A port is a uint16_t, a task's number a uint32_t.
pub data StnCall : Type 0 where
  set_callback : StnCall
  set_longlink_svr_addr : String → List ℕ → String → StnCall
  set_shortlink_svr_addr : ℕ → String → StnCall
  set_debug_ip : String → String → StnCall
  set_backup_ips : String → List String → StnCall
  start_task : Task → StnCall
  stop_task : ℕ → StnCall
  has_task : ℕ → StnCall
  redo_tasks : StnCall
  clear_tasks : StnCall
  reset : StnCall
  set_signalling_strategy : ℤ → ℤ → StnCall
  keep_signalling : StnCall
  stop_signalling : StnCall
  makesure_longlink_connected : StnCall
  longlink_is_connected : StnCall
  proxy_is_available : ProxyInfo → String → List String → StnCall
  get_noop_task_id : StnCall

pub data BaseCall : Type 0 where
  on_create : BaseCall
  on_destroy : BaseCall
  on_singal_crash : ℤ → BaseCall
  on_exception_crash : BaseCall
  on_foreground : Bool → BaseCall
  on_network_change : BaseCall
  on_network_data_change : String → ℤ → ℤ → BaseCall

-- The functions that fill a caller's buffer have its size alone.
pub data AppenderCall : Type 0 where
  appender_open : AppenderMode → String → String → String → AppenderCall
  appender_open_with_cache : AppenderMode → String → String → String → String → AppenderCall
  appender_flush : AppenderCall
  appender_flush_sync : AppenderCall
  appender_close : AppenderCall
  appender_setmode : AppenderMode → AppenderCall
  appender_getfilepath_from_timespan : ℤ → String → AppenderCall
  appender_make_logfile_name : ℤ → String → AppenderCall
  appender_get_current_log_path : ℕ → AppenderCall
  appender_get_current_log_cache_path : ℕ → AppenderCall
  appender_set_console_log : Bool → AppenderCall
  appender_set_max_file_size : ℕ → AppenderCall
