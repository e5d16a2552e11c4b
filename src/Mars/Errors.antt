-- ===== src/Mars/Errors.antt =====
-- The error codes that the mars library ends a task with, of the four enumerations without a name in
-- libs/mars/include/mars/stn/stn.h; the error type, ErrCmdType, says which of them a code is of.
use mars_wrapper.Prelude.{
  ◌≡◌, refl, ap, List, [], ◌∷◌, Option, none, some, Bool, false, ◌==◌, if◌then◌else◌,
}
use mars_wrapper.Prelude.Int.{ℤ, negsuc}

pub data LocalError : Type 0 where
  local_task_timeout : LocalError
  local_task_retry : LocalError
  local_start_task_fail : LocalError
  local_anti_avalanche : LocalError
  local_channel_select : LocalError
  local_no_net : LocalError
  local_cancel : LocalError
  local_clear : LocalError
  local_reset : LocalError
  local_task_param : LocalError
  local_cgi_frequcency_limit : LocalError
  local_channel_id : LocalError

abbrev pub local_code : LocalError → ℤ
local_code local_task_timeout = negsuc 0
local_code local_task_retry = negsuc 1
local_code local_start_task_fail = negsuc 2
local_code local_anti_avalanche = negsuc 3
local_code local_channel_select = negsuc 4
local_code local_no_net = negsuc 5
local_code local_cancel = negsuc 6
local_code local_clear = negsuc 7
local_code local_reset = negsuc 8
local_code local_task_param = negsuc 11
local_code local_cgi_frequcency_limit = negsuc 12
local_code local_channel_id = negsuc 13

pub data LongError : Type 0 where
  long_first_pkg_timeout : LongError
  long_pkg_pkg_timeout : LongError
  long_read_write_timeout : LongError
  long_task_timeout : LongError

abbrev pub long_code : LongError → ℤ
long_code long_first_pkg_timeout = negsuc 499
long_code long_pkg_pkg_timeout = negsuc 500
long_code long_read_write_timeout = negsuc 501
long_code long_task_timeout = negsuc 502

pub data HttpError : Type 0 where
  http_first_pkg_timeout : HttpError
  http_pkg_pkg_timeout : HttpError
  http_read_write_timeout : HttpError
  http_task_timeout : HttpError

abbrev pub http_code : HttpError → ℤ
http_code http_first_pkg_timeout = negsuc 499
http_code http_pkg_pkg_timeout = negsuc 500
http_code http_read_write_timeout = negsuc 501
http_code http_task_timeout = negsuc 502

pub data SocketError : Type 0 where
  socket_network_change : SocketError
  socket_make_socket_prepared : SocketError
  socket_writen_with_non_block : SocketError
  socket_read_once : SocketError
  socket_shutdown : SocketError
  socket_recv_err : SocketError
  socket_send_err : SocketError
  socket_noop_timeout : SocketError
  socket_noop_alarm_too_late : SocketError
  http_split_http_head_and_body : SocketError
  http_parse_status_line : SocketError
  net_msg_xp_handle_buffer_err : SocketError
  dns_make_socket_prepared : SocketError

abbrev pub socket_code : SocketError → ℤ
socket_code socket_network_change = negsuc 10085
socket_code socket_make_socket_prepared = negsuc 10086
socket_code socket_writen_with_non_block = negsuc 10087
socket_code socket_read_once = negsuc 10088
socket_code socket_shutdown = negsuc 10089
socket_code socket_recv_err = negsuc 10090
socket_code socket_send_err = negsuc 10091
socket_code socket_noop_timeout = negsuc 10092
socket_code socket_noop_alarm_too_late = negsuc 10093
socket_code http_split_http_head_and_body = negsuc 10193
socket_code http_parse_status_line = negsuc 10194
socket_code net_msg_xp_handle_buffer_err = negsuc 10503
socket_code dns_make_socket_prepared = negsuc 10605

-- An error of one of the enumerations, those of HTTP left out, whose codes are those of a long link.
pub data Reason : Type 0 where
  of_local : LocalError → Reason
  of_long : LongError → Reason
  of_socket : SocketError → Reason

abbrev pub reason_code : Reason → ℤ
reason_code (of_local x) = local_code x
reason_code (of_long x) = long_code x
reason_code (of_socket x) = socket_code x

abbrev all_reasons : List Reason
all_reasons =
    of_local local_task_timeout
    ∷ of_local local_task_retry
    ∷ of_local local_start_task_fail
    ∷ of_local local_anti_avalanche
    ∷ of_local local_channel_select
    ∷ of_local local_no_net
    ∷ of_local local_cancel
    ∷ of_local local_clear
    ∷ of_local local_reset
    ∷ of_local local_task_param
    ∷ of_local local_cgi_frequcency_limit
    ∷ of_local local_channel_id
    ∷ of_long long_first_pkg_timeout
    ∷ of_long long_pkg_pkg_timeout
    ∷ of_long long_read_write_timeout
    ∷ of_long long_task_timeout
    ∷ of_socket socket_network_change
    ∷ of_socket socket_make_socket_prepared
    ∷ of_socket socket_writen_with_non_block
    ∷ of_socket socket_read_once
    ∷ of_socket socket_shutdown
    ∷ of_socket socket_recv_err
    ∷ of_socket socket_send_err
    ∷ of_socket socket_noop_timeout
    ∷ of_socket socket_noop_alarm_too_late
    ∷ of_socket http_split_http_head_and_body
    ∷ of_socket http_parse_status_line
    ∷ of_socket net_msg_xp_handle_buffer_err
    ∷ of_socket dns_make_socket_prepared
    ∷ []

abbrev has_code : ℤ → ℤ → Bool
has_code (negsuc m) (negsuc n) = m == n
has_code _ _ = false

abbrev first_with : ℤ → List Reason → Option Reason
first_with code [] = none
first_with code (r ∷ rest) =
    let later = first_with code rest in if has_code code (reason_code r) then some r else later

first_with-reason_code : (r : Reason) → first_with (reason_code r) all_reasons ≡ some r
first_with-reason_code (of_local local_task_timeout) = refl
first_with-reason_code (of_local local_task_retry) = refl
first_with-reason_code (of_local local_start_task_fail) = refl
first_with-reason_code (of_local local_anti_avalanche) = refl
first_with-reason_code (of_local local_channel_select) = refl
first_with-reason_code (of_local local_no_net) = refl
first_with-reason_code (of_local local_cancel) = refl
first_with-reason_code (of_local local_clear) = refl
first_with-reason_code (of_local local_reset) = refl
first_with-reason_code (of_local local_task_param) = refl
first_with-reason_code (of_local local_cgi_frequcency_limit) = refl
first_with-reason_code (of_local local_channel_id) = refl
first_with-reason_code (of_long long_first_pkg_timeout) = refl
first_with-reason_code (of_long long_pkg_pkg_timeout) = refl
first_with-reason_code (of_long long_read_write_timeout) = refl
first_with-reason_code (of_long long_task_timeout) = refl
first_with-reason_code (of_socket socket_network_change) = refl
first_with-reason_code (of_socket socket_make_socket_prepared) = refl
first_with-reason_code (of_socket socket_writen_with_non_block) = refl
first_with-reason_code (of_socket socket_read_once) = refl
first_with-reason_code (of_socket socket_shutdown) = refl
first_with-reason_code (of_socket socket_recv_err) = refl
first_with-reason_code (of_socket socket_send_err) = refl
first_with-reason_code (of_socket socket_noop_timeout) = refl
first_with-reason_code (of_socket socket_noop_alarm_too_late) = refl
first_with-reason_code (of_socket http_split_http_head_and_body) = refl
first_with-reason_code (of_socket http_parse_status_line) = refl
first_with-reason_code (of_socket net_msg_xp_handle_buffer_err) = refl
first_with-reason_code (of_socket dns_make_socket_prepared) = refl

-- No two of them have one code.
pub reason_code-injective : (r s : Reason) → reason_code r ≡ reason_code s → r ≡ s
reason_code-injective r s same =
    cc (first_with-reason_code r, first_with-reason_code s, ap (λ c. first_with c all_reasons) same)
