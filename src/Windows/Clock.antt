-- ===== src/Windows/Clock.antt =====
-- The time of day and the sleep of src/base.h.
use mars_wrapper.Prelude.{ℕ, ◌+◌, ◌-◌, ◌*◌, ◌^◌, ◌≤◌, ◌<◌, ◌≡◌, arith}
use mars_wrapper.Mutex.{make_timeout}
use mars_wrapper.Mutex.Timeout.{make_timeout_lem}
use mars_wrapper.Windows.{SystemTime, Tm, gettimeofday, thread_sleep, local_tm}

-- On Windows the time of day, for fewer than 1000 milliseconds, has fewer than 10 ^ 6 microseconds, so
-- that a deadline made from it has fewer than 10 ^ 9 nanoseconds and lies exactly the given
-- milliseconds after the second that `mktime` gives and the milliseconds of the clock.
pub make_timeout-gettimeofday :
    (mktime : Tm → ℕ) (wtm : SystemTime) (millisecond : ℕ)
    → wtm.milliseconds < 1000
    → let deadline = make_timeout ((gettimeofday mktime wtm).1) millisecond in
      (deadline.nsec < 1000000000)
      × (deadline.sec * 1000000000 + deadline.nsec
          ≡ mktime (local_tm wtm) * 1000000000 + (wtm.milliseconds + millisecond) * 1000000)
unfolding gettimeofday
make_timeout-gettimeofday mktime wtm millisecond small =
    let (normal, exact) =
      make_timeout_lem ((gettimeofday mktime wtm).1) millisecond (omega arith) in
    (normal, omega (arith, exact))

-- Below 2 ^ 32 - 500 milliseconds `thread_sleep` sleeps a whole number of seconds that is nearest to
-- them, half a second away at most.
pub thread_sleep_lem :
    (nms : ℕ)
    → nms < 2 ^ 32 - 500
    → (thread_sleep nms * 1000 ≤ nms + 500) × (nms < thread_sleep nms * 1000 + 500)
unfolding thread_sleep
thread_sleep_lem nms small = (omega arith, omega arith)
