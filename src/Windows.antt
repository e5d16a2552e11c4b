-- ===== src/Windows.antt =====
-- src/base.h for Windows: `gettimeofday` and the macros that put calls of the Win32 API in place of
-- those of pthread; and `thread_sleep` of the other systems. The calls go to a list, and what they
-- return is given. The mutex of a Windows build is std::mutex.
pub mod Clock
use Prim.Native.String.{String}
use mars_wrapper.Prelude.{
  ℕ, suc, ◌+◌, ◌-◌, ◌*◌, ◌/◌, ◌%◌, ◌^◌, List, [], ◌∷◌, Bool, true, false, not, ◌||◌, if◌then◌else◌,
  ltb, leb, ◌==◌,
}
use mars_wrapper.Prelude.Int.{ℤ, pos, negsuc}
use mars_wrapper.Mutex.{Timeval}

-- SYSTEMTIME, whose fields are of 16 bits.
pub record SystemTime : Type 0 where
  pub year : ℕ
  pub month : ℕ
  pub day : ℕ
  pub hour : ℕ
  pub minute : ℕ
  pub second : ℕ
  pub milliseconds : ℕ

-- struct tm
pub record Tm : Type 0 where
  pub tm_year : ℤ
  pub tm_mon : ℤ
  pub tm_mday : ℤ
  pub tm_hour : ℤ
  pub tm_min : ℤ
  pub tm_sec : ℤ
  pub tm_isdst : ℤ

-- `a - b`
abbrev pub minus : ℕ → ℕ → ℤ
minus a b = if leb b a then pos (a - b) else negsuc (b - a - 1)

abbrev pub local_tm : SystemTime → Tm
local_tm wtm = record {
  tm_year = minus wtm.year 1900;
  tm_mon = minus wtm.month 1;
  tm_mday = pos wtm.day;
  tm_hour = pos wtm.hour;
  tm_min = pos wtm.minute;
  tm_sec = pos wtm.second;
  tm_isdst = negsuc 0;
}

-- `mktime` is given; a time before 1970, for which it is -1 or less, is not in the model.
unfoldable pub gettimeofday : (Tm → ℕ) → SystemTime → ℤ × Timeval
gettimeofday mktime wtm =
    (pos 0, record { sec = mktime (local_tm wtm); usec = wtm.milliseconds * 1000 })

-- The argument of `sleep`, for an unsigned number of milliseconds.
unfoldable pub thread_sleep : ℕ → ℕ
thread_sleep nms = (nms + 500) % 2 ^ 32 / 1000

pub data Call : Type 0 where
  begin_thread : Call
  wait_for_single_object : ℕ → Call
  close_handle : ℕ → Call
  terminate_thread : ℕ → Call
  tls_alloc : Call
  tls_get_value : ℕ → Call
  tls_set_value : ℕ → ℕ → Call
  get_current_thread_id : Call
  release_mutex : ℕ → Call
  create_mutex : Call
  create_event : Call
  signal_object_and_wait : ℕ → ℕ → ℕ → Call
  set_event : ℕ → Call
  sleep : ℕ → Call
  set_thread_name : ℤ → String → Call

-- INFINITE and WAIT_OBJECT_0; the null handle is 0.
abbrev pub infinite : ℕ
infinite = 0xFFFFFFFF

abbrev pub wait_object_0 : ℕ
wait_object_0 = 0

-- The handle made, and the value: 1 if there is none.
abbrev pub pthread_create : ℕ → ℕ × ℕ × List Call
pthread_create made = (made, (if made == 0 then 1 else 0), begin_thread ∷ [])

-- `||`: the handle is closed only if the thread has ended.
unfoldable pub pthread_join : ℕ → ℕ → Bool → Bool × List Call
pthread_join thread waited closed =
    if not (waited == wait_object_0)
    then (true, wait_for_single_object thread ∷ [])
    else (not closed, close_handle thread ∷ wait_for_single_object thread ∷ [])

unfoldable pub pthread_detach : ℕ → List Call
pthread_detach thread = if thread == 0 then [] else close_handle thread ∷ []

abbrev pub pthread_cancel : ℕ → List Call
pthread_cancel thread = terminate_thread thread ∷ []

abbrev pub ts_key_create : ℕ → ℕ × List Call
ts_key_create made = (made, tls_alloc ∷ [])

abbrev pub pthread_getspecific : ℕ → List Call
pthread_getspecific ts_key = tls_get_value ts_key ∷ []

abbrev pub pthread_setspecific : ℕ → ℕ → List Call
pthread_setspecific ts_key value = tls_set_value ts_key value ∷ []

abbrev pub pthread_self : List Call
pthread_self = get_current_thread_id ∷ []

abbrev pub pthread_mutex_lock : ℕ → List Call
pthread_mutex_lock object = wait_for_single_object object ∷ []

abbrev pub pthread_mutex_unlock : ℕ → List Call
pthread_mutex_unlock object = release_mutex object ∷ []

abbrev pub pthread_mutex_init : ℕ → ℕ × List Call
pthread_mutex_init made = (made, create_mutex ∷ [])

abbrev pub pthread_cond_init : ℕ → ℕ × List Call
pthread_cond_init made = (made, create_event ∷ [])

abbrev pub pthread_mutex_destroy : ℕ → List Call
pthread_mutex_destroy object = close_handle object ∷ []

abbrev pub pthread_cond_destroy : ℕ → List Call
pthread_cond_destroy object = close_handle object ∷ []

-- The mutex is taken again after the wait.
abbrev pub pthread_cond_wait : ℕ → ℕ → List Call
pthread_cond_wait pcv mutex =
    wait_for_single_object mutex ∷ signal_object_and_wait mutex pcv infinite ∷ []

-- It waits one second at most, whatever time is asked for, and does not take the mutex again.
abbrev pub pthread_cond_timedwait : ℕ → ℕ → ℕ → List Call
pthread_cond_timedwait pcv mutex time = signal_object_and_wait mutex pcv 1000 ∷ []

abbrev pub pthread_cond_signal : ℕ → List Call
pthread_cond_signal pcv = set_event pcv ∷ []

-- `thread_sleep` of Windows.
abbrev pub thread_sleep_windows : ℕ → List Call
thread_sleep_windows nms = sleep nms ∷ []

-- The handle is not used: the name goes to the thread -1.
abbrev pub pthread_setname_np : ℕ → String → List Call
pthread_setname_np thhandle name = set_thread_name (negsuc 0) name ∷ []
