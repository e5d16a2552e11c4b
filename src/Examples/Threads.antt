-- ===== src/Examples/Threads.antt =====
-- The mutex on a concrete pthread, in which a mutex is its owner and all mutexes check errors.
use mars_wrapper.Prelude.{
  ℕ, ◌≡◌, ◌≢◌, refl, true, false, Option, none, some, arith, ◌==◌, if◌then◌else◌, ◌<◌, ◌+◌, ◌*◌,
}
use mars_wrapper.Mutex.{
  Pthread, Mutex, Kind, Reply, ok, ebusy, edeadlk, eperm, error_check, returns, aborts, acquire,
  release, trylock, Timeval, make_timeout,
}
use mars_wrapper.Mutex.Exclusion.{IsHeld, one_holder}
use mars_wrapper.Mutex.Timeout.{make_timeout_lem}

abbrev owned_lock : ℕ → Option ℕ → Option (Reply (Option ℕ))
owned_lock t none = some (record { code = ok; state = some t })
owned_lock t (some u) = if u == t then some (record { code = edeadlk; state = some u }) else none

abbrev owned_trylock : ℕ → Option ℕ → Reply (Option ℕ)
owned_trylock t none = record { code = ok; state = some t }
owned_trylock t (some u) = record { code = ebusy; state = some u }

abbrev owned_unlock : ℕ → Option ℕ → Reply (Option ℕ)
owned_unlock t none = record { code = eperm; state = none }
owned_unlock t (some u) =
    if u == t then record { code = ok; state = none } else record { code = eperm; state = some u }

lock_own_lem :
    (t : ℕ) (s : Option ℕ)
    → s ≡ some t
    → owned_lock t s ≡ some (record { code = edeadlk; state = s })
lock_own_lem t s e = ground (arith, e)

unlock_own_lem :
    (t : ℕ) (s : Option ℕ) → s ≡ some t → owned_unlock t s ≡ record { code = ok; state = none }
unlock_own_lem t s e = ground (arith, e)

unlock_other_lem :
    (t : ℕ) (s o : Option ℕ)
    → s ≡ o
    → o ≢ some t
    → owned_unlock t s ≡ record { code = eperm; state = s }
unlock_other_lem t none o held other = refl
unlock_other_lem t (some u) o held other = ground (arith, held, other)

abbrev owners : Pthread (Option ℕ) Kind
owners = record {
  attr_init = record { code = ok; state = error_check };
  attr_settype = λ a k. record { code = ok; state = k };
  attr_destroy = λ a. ok;
  mutex_init = λ a. record { code = ok; state = none };
  mutex_destroy = λ s. ok;
  mutex_lock = owned_lock;
  mutex_trylock = owned_trylock;
  mutex_timedlock = λ t deadline s. owned_trylock t s;
  mutex_lock_timeout_np = λ t millisecond s. owned_trylock t s;
  mutex_unlock = owned_unlock;
  Checks = λ a. a ≡ error_check;
  Held = λ s o. s ≡ o;
  Checks-settype = λ a e. refl;
  Held-init = λ a c e. refl;
  lock_free = λ t s e. (some t, rw e refl, refl);
  lock_own = lock_own_lem;
  trylock_free = λ t s e. (some t, rw e refl, refl);
  trylock_held = λ t u s e. rw e refl;
  unlock_own = λ t s e. (none, unlock_own_lem t s e, refl);
  unlock_other = unlock_other_lem;
}

abbrev free_mutex : Mutex (Option ℕ) Kind
free_mutex = record { magic = 64; mutex = none; attr = error_check }

free_mutex-IsHeld : IsHeld owners 64 free_mutex none
free_mutex-IsHeld = record { whole = refl; held = refl }

one_holder_example :
    (v : Mutex (Option ℕ) Kind) × (acquire owners 64 1 free_mutex ≡ returns (true, v))
    × ((u : ℕ) → trylock owners 64 u v ≡ returns (false, v))
    × (acquire owners 64 1 v ≡ aborts)
    × ((u : ℕ) → u ≢ 1 → release owners u v ≡ aborts)
    × ((w : Mutex (Option ℕ) Kind) × (release owners 1 v ≡ returns (true, w))
        × IsHeld owners 64 w none)
one_holder_example = one_holder owners 64 free_mutex 1 free_mutex-IsHeld

abbrev late : Timeval
late = record { sec = 7; usec = 999999 }

make_timeout_lem_example :
    ((make_timeout late 1500).nsec < 1000000000)
    × ((make_timeout late 1500).sec * 1000000000 + (make_timeout late 1500).nsec
        ≡ 7 * 1000000000 + 999999 * 1000 + 1500 * 1000000)
make_timeout_lem_example = make_timeout_lem late 1500 (omega arith)
