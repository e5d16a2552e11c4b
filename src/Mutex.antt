-- ===== src/Mutex.antt =====
-- src/base.h: the class Mutex, on the calls of pthread that it makes. Those are an interface, whose
-- laws are what POSIX says of a mutex of the error-checking kind.
pub mod Exclusion
pub mod Timeout
use mars_wrapper.Prelude.{
  ℕ, ◌+◌, ◌*◌, ◌/◌, ◌%◌, ◌^◌, ◌≡◌, ◌≢◌, Bool, true, false, Option, none, some, if◌then◌else◌, ◌==◌,
}

-- What a pthread call returns: 0, an error number of errno.h that the class names, or another.
pub data Code : Type 0 where
  ok : Code
  einval : Code
  eagain : Code
  edeadlk : Code
  ebusy : Code
  eperm : Code
  enomem : Code
  etimedout : Code
  other_error : ℕ → Code

-- PTHREAD_MUTEX_RECURSIVE and PTHREAD_MUTEX_ERRORCHECK.
pub data Kind : Type 0 where
  recursive_kind : Kind
  error_check : Kind

pub record Reply (A : Type 0) : Type 0 where
  pub code : Code
  pub state : A

pub record Timespec : Type 0 where
  pub sec : ℕ
  pub nsec : ℕ

pub record Timeval : Type 0 where
  pub sec : ℕ
  pub usec : ℕ

-- A mutex and an attribute are opaque; `Held s o` says that `s` is an error-checking mutex with the
-- owner `o`. Threads are numbers. A call that waits for the owner is `none`.
pub record Pthread (S Attr : Type 0) : Type 1 where
  pub attr_init : Reply Attr
  pub attr_settype : Attr → Kind → Reply Attr
  pub attr_destroy : Attr → Code
  pub mutex_init : Attr → Reply S
  pub mutex_destroy : S → Code
  pub mutex_lock : ℕ → S → Option (Reply S)
  pub mutex_trylock : ℕ → S → Reply S
  pub mutex_timedlock : ℕ → Timespec → S → Reply S
  pub mutex_lock_timeout_np : ℕ → ℕ → S → Reply S
  pub mutex_unlock : ℕ → S → Reply S
  pub Checks : Attr → Type 0
  pub Held : S → Option ℕ → Type 0
  pub Checks-settype :
      (a : Attr)
      → (attr_settype a error_check).code ≡ ok
      → Checks ((attr_settype a error_check).state)
  pub Held-init :
      (a : Attr) → Checks a → (mutex_init a).code ≡ ok → Held ((mutex_init a).state) none
  pub lock_free :
      (t : ℕ) (s : S)
      → Held s none
      → (s' : S) × (mutex_lock t s ≡ some (record { code = ok; state = s' })) × Held s' (some t)
  pub lock_own :
      (t : ℕ) (s : S)
      → Held s (some t)
      → mutex_lock t s ≡ some (record { code = edeadlk; state = s })
  pub trylock_free :
      (t : ℕ) (s : S)
      → Held s none
      → (s' : S) × (mutex_trylock t s ≡ record { code = ok; state = s' }) × Held s' (some t)
  pub trylock_held :
      (t u : ℕ) (s : S) → Held s (some u) → mutex_trylock t s ≡ record { code = ebusy; state = s }
  pub unlock_own :
      (t : ℕ) (s : S)
      → Held s (some t)
      → (s' : S) × (mutex_unlock t s ≡ record { code = ok; state = s' }) × Held s' none
  pub unlock_other :
      (t : ℕ) (s : S) (o : Option ℕ)
      → Held s o
      → o ≢ some t
      → mutex_unlock t s ≡ record { code = eperm; state = s }

-- A method returns, ends the process by an assertion, or waits for another thread.
pub data Outcome (A : Type 0) : Type 0 where
  returns : A → Outcome A
  aborts : Outcome A
  waits : Outcome A

pub record Mutex (S Attr : Type 0) : Type 0 where
  pub magic : ℕ
  pub mutex : S
  pub attr : Attr

-- The chains of assertions on a return value: each error fails the one that names it, or the last.
abbrev pub asserted : {A : Type 0} → Code → A → Outcome A
asserted ok a = returns a
asserted einval a = aborts
asserted eagain a = aborts
asserted edeadlk a = aborts
asserted ebusy a = aborts
asserted eperm a = aborts
asserted enomem a = aborts
asserted etimedout a = aborts
asserted (other_error _) a = aborts

abbrev pub then_on : {A B : Type 0} → Outcome A → (A → Outcome B) → Outcome B
then_on (returns a) f = f a
then_on aborts f = aborts
then_on waits f = waits

abbrev pub requested_kind : Bool → Kind
requested_kind true = recursive_kind
requested_kind false = error_check

-- MakeTimeout, with what gettimeofday tells. The milliseconds are an unsigned int, and a time_t is
-- taken to be wide enough for the seconds.
unfoldable pub make_timeout : Timeval → ℕ → Timespec
make_timeout tv millisecond =
    let sec = millisecond / 1000 + tv.sec in
    let nsec = millisecond % 1000 * 1000 * 1000 % 2 ^ 32 + tv.usec * 1000 in
    record { sec = sec + nsec / (1000 * 1000 * 1000); nsec = nsec % (1000 * 1000 * 1000) }

-- `self` is the address of the object, and `t` the thread that calls.
module _ {S Attr : Type 0} (ops : Pthread S Attr) where
  abbrev with_state : Mutex S Attr → S → Mutex S Attr
  with_state m s = record m { mutex = s }

  -- Mutex(bool _recursive)
  unfoldable pub construct : ℕ → Bool → Outcome (Mutex S Attr)
  construct self recursive = then_on (asserted ops.attr_init.code ops.attr_init.state) λ fresh.
      (let typed = ops.attr_settype fresh (requested_kind recursive) in
        then_on (asserted typed.code typed.state) λ attr.
          (let made = ops.mutex_init attr in
            then_on (asserted made.code made.state)
              λ s. returns (record { magic = self; mutex = s; attr = attr })))

  -- ~Mutex()
  unfoldable pub destruct : Mutex S Attr → Outcome (Unit {0})
  destruct m =
      then_on (asserted (ops.mutex_destroy m.mutex) tt) λ _. asserted (ops.attr_destroy m.attr) tt

  unfoldable pub acquire : ℕ → ℕ → Mutex S Attr → Outcome (Bool × Mutex S Attr)
  acquire self t m =
      if self == m.magic
      then elim (ops.mutex_lock t m.mutex) [
        | none ↦ waits
        | some reply ↦ asserted reply.code (true, with_state m reply.state)
      ]
      else returns (false, m)

  -- `unlock` does not look at the magic number.
  unfoldable pub release : ℕ → Mutex S Attr → Outcome (Bool × Mutex S Attr)
  release t m =
      let reply = ops.mutex_unlock t m.mutex in asserted reply.code (true, with_state m reply.state)

  tried : Reply S → Mutex S Attr → Outcome (Bool × Mutex S Attr)
  tried reply m = elim reply.code [
    | ebusy ↦ returns (false, with_state m reply.state)
    | ok ↦ returns (true, with_state m reply.state)
    | einval ↦ aborts
    | eagain ↦ aborts
    | edeadlk ↦ aborts
    | eperm ↦ aborts
    | enomem ↦ aborts
    | etimedout ↦ aborts
    | other_error _ ↦ aborts
  ]

  unfoldable pub trylock : ℕ → ℕ → Mutex S Attr → Outcome (Bool × Mutex S Attr)
  unfolding tried
  trylock self t m =
      if self == m.magic then tried (ops.mutex_trylock t m.mutex) m else returns (false, m)

  timed : Reply S → Mutex S Attr → Bool × Mutex S Attr
  timed reply m = elim reply.code [
    | ok ↦ (true, with_state m reply.state)
    | einval ↦ (false, with_state m reply.state)
    | eagain ↦ (false, with_state m reply.state)
    | edeadlk ↦ (false, with_state m reply.state)
    | ebusy ↦ (false, with_state m reply.state)
    | eperm ↦ (false, with_state m reply.state)
    | enomem ↦ (false, with_state m reply.state)
    | etimedout ↦ (false, with_state m reply.state)
    | other_error _ ↦ (false, with_state m reply.state)
  ]

  -- The one for Linux; `tv` is the time of day.
  unfoldable pub timedlock : ℕ → ℕ → Timeval → ℕ → Mutex S Attr → Bool × Mutex S Attr
  unfolding timed
  timedlock self t tv millisecond m =
      if self == m.magic
      then timed (ops.mutex_timedlock t (make_timeout tv millisecond) m.mutex) m
      else (false, m)

  -- The one for Android; before the API level 21 the time to wait is given, not a deadline.
  unfoldable pub timedlock_android : Bool → ℕ → ℕ → Timeval → ℕ → Mutex S Attr → Bool × Mutex S Attr
  unfolding timed
  timedlock_android old_api self t tv millisecond m =
      if self == m.magic
      then timed
          (if old_api
            then ops.mutex_lock_timeout_np t millisecond m.mutex
            else ops.mutex_timedlock t (make_timeout tv millisecond) m.mutex)
          m
      else (false, m)

  looked : ℕ → Reply S → Mutex S Attr → Outcome (Bool × Mutex S Attr)
  unfolding release
  looked t reply m = elim reply.code [
    | ok ↦ then_on (release t (with_state m reply.state)) λ r. returns (false, r.1)
    | einval ↦ returns (true, with_state m reply.state)
    | eagain ↦ returns (true, with_state m reply.state)
    | edeadlk ↦ returns (true, with_state m reply.state)
    | ebusy ↦ returns (true, with_state m reply.state)
    | eperm ↦ returns (true, with_state m reply.state)
    | enomem ↦ returns (true, with_state m reply.state)
    | etimedout ↦ returns (true, with_state m reply.state)
    | other_error _ ↦ returns (true, with_state m reply.state)
  ]

  unfoldable pub islocked : ℕ → ℕ → Mutex S Attr → Outcome (Bool × Mutex S Attr)
  unfolding looked
  islocked self t m = if self == m.magic then looked t (ops.mutex_trylock t m.mutex) m else aborts

  -- internal()
  abbrev pub handle : Mutex S Attr → S
  handle m = m.mutex
