-- ===== src/Task.antt =====
-- mars::stn::Task and ErrCmdType (libs/mars/include/mars/stn/stn.h): what the wrapper fills in for the
-- library, and what the library reports.
use Prim.Native.String.{String}
use mars_wrapper.Prelude.{ℕ, List, Bool, Option}
use mars_wrapper.Prelude.Int.{ℤ}

pub record Task : Type 0 where
  pub taskid : ℕ
  pub cmdid : ℕ
  pub channel_id : ℕ
  pub channel_select : ℕ
  pub cgi : String
  pub send_only : Bool
  pub need_authed : Bool
  pub limit_flow : Bool
  pub limit_frequency : Bool
  pub network_status_sensitive : Bool
  pub channel_strategy : ℤ
  pub priority : ℕ
  pub retry_count : ℤ
  pub server_process_cost : ℤ
  pub total_timetout : ℤ
  pub user_context : Option ℕ
  pub report_arg : String
  pub shortlink_host_list : List String

-- Task::kChannelShort, kChannelLong and kChannelBoth.
abbrev pub channel_short : ℕ
channel_short = 1

abbrev pub channel_long : ℕ
channel_long = 2

abbrev pub channel_both : ℕ
channel_both = 3

abbrev pub priority_normal : ℕ
priority_normal = 3

-- Task::kInvalidTaskID, kNoopTaskID, kLongLinkIdentifyCheckerTaskID and kSignallingKeeperTaskID.
abbrev pub invalid_task_id : ℕ
invalid_task_id = 0

abbrev pub noop_task_id : ℕ
noop_task_id = 0xFFFFFFFF

abbrev pub identify_checker_task_id : ℕ
identify_checker_task_id = 0xFFFFFFFE

abbrev pub signalling_keeper_task_id : ℕ
signalling_keeper_task_id = 0xFFFFFFFD

pub data ErrCmdType : Type 0 where
  ect_ok : ErrCmdType
  ect_false : ErrCmdType
  ect_dial : ErrCmdType
  ect_dns : ErrCmdType
  ect_socket : ErrCmdType
  ect_http : ErrCmdType
  ect_net_msg_xp : ErrCmdType
  ect_en_decode : ErrCmdType
  ect_server : ErrCmdType
  ect_local : ErrCmdType
  ect_canceld : ErrCmdType

abbrev pub err_code : ErrCmdType → ℕ
err_code ect_ok = 0
err_code ect_false = 1
err_code ect_dial = 2
err_code ect_dns = 3
err_code ect_socket = 4
err_code ect_http = 5
err_code ect_net_msg_xp = 6
err_code ect_en_decode = 7
err_code ect_server = 8
err_code ect_local = 9
err_code ect_canceld = 10
