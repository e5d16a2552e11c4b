-- ===== src/Mutex/Timeout.antt =====
-- MakeTimeout in src/base.h.
use mars_wrapper.Prelude.{ℕ, ◌+◌, ◌*◌, ◌<◌, ◌≡◌, arith}
use mars_wrapper.Mutex.{Timeval, make_timeout}

-- If gettimeofday tells fewer than 10 ^ 6 microseconds, the deadline has fewer than 10 ^ 9
-- nanoseconds, as POSIX wants it, and it is exactly the given milliseconds after that time.
pub make_timeout_lem :
    (tv : Timeval) (millisecond : ℕ)
    → tv.usec < 1000000
    → ((make_timeout tv millisecond).nsec < 1000000000)
      × ((make_timeout tv millisecond).sec * 1000000000 + (make_timeout tv millisecond).nsec
          ≡ tv.sec * 1000000000 + tv.usec * 1000 + millisecond * 1000000)
unfolding make_timeout
make_timeout_lem tv millisecond h = (omega arith, omega arith)
