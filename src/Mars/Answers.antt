-- ===== src/Mars/Answers.antt =====
-- The numbers that the wrapper's callbacks answer, as the enumerations of
-- libs/mars/include/mars/stn/stn.h that the library reads them by.
use mars_wrapper.Prelude.Int.{ℤ, pos, negsuc}

-- `fail_normal` is kTaskFailHandleNoError too.
pub data TaskFailHandle : Type 0 where
  fail_normal : TaskFailHandle
  fail_default : TaskFailHandle
  fail_retry_all_tasks : TaskFailHandle
  fail_session_timeout : TaskFailHandle
  fail_task_end : TaskFailHandle
  fail_task_timeout : TaskFailHandle

abbrev pub fail_code : TaskFailHandle → ℤ
fail_code fail_normal = pos 0
fail_code fail_default = negsuc 0
fail_code fail_retry_all_tasks = negsuc 11
fail_code fail_session_timeout = negsuc 12
fail_code fail_task_end = negsuc 13
fail_code fail_task_timeout = negsuc 14

pub data IdentifyMode : Type 0 where
  check_now : IdentifyMode
  check_next : IdentifyMode
  check_never : IdentifyMode

abbrev pub identify_code : IdentifyMode → ℤ
identify_code check_now = pos 0
identify_code check_next = pos 1
identify_code check_never = pos 2

pub data NetStatus : Type 0 where
  network_unkown : NetStatus
  network_unavailable : NetStatus
  gate_way_failed : NetStatus
  server_failed : NetStatus
  connecting : NetStatus
  connected : NetStatus
  server_down : NetStatus

abbrev pub net_code : NetStatus → ℤ
net_code network_unkown = negsuc 0
net_code network_unavailable = pos 0
net_code gate_way_failed = pos 1
net_code server_failed = pos 2
net_code connecting = pos 3
net_code connected = pos 4
net_code server_down = pos 5
