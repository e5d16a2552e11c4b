-- ===== src/Mutex/Exclusion.antt =====
-- What the mutex of src/base.h is for: one holder at a time.
use mars_wrapper.Prelude.{
  ℕ, ◌≡◌, ◌≢◌, refl, ap, Bool, true, false, Option, none, some, arith, if◌then◌else◌, ◌⊎◌, inl, inr,
  Bool-cases, subst,
}
use mars_wrapper.Memory.{World}
use mars_wrapper.Proxy.{lock, unlock}
use mars_wrapper.Mutex.{
  Pthread, Mutex, Code, Reply, ok, error_check, returns, aborts, asserted, einval, eagain, edeadlk,
  ebusy, eperm, enomem, etimedout, other_error, construct, acquire, release, trylock, islocked,
}

module _ {S Attr : Type 0} (ops : Pthread S Attr) (self : ℕ) where
  -- The object is whole, and its mutex has the owner `o`.
  pub record IsHeld (m : Mutex S Attr) (o : Option ℕ) : Type 0 where
    pub whole : self ≡ m.magic
    pub held : ops.Held m.mutex o

  module _ (m : Mutex S Attr) (t : ℕ) where
    acquired :
        IsHeld m none
        → (v : Mutex S Attr) × (acquire ops self t m ≡ returns (true, v)) × IsHeld v (some t)
    unfolding acquire
    acquired free =
        let (s, run, held) = ops.lock_free t m.mutex free.held in
        (
          record m { mutex = s },
          ground (arith, free.whole, run),
          record { whole = free.whole; held = held },
        )

    acquired_twice : IsHeld m (some t) → acquire ops self t m ≡ aborts
    unfolding acquire
    acquired_twice own = ground (arith, own.whole, ops.lock_own t m.mutex own.held)

    released :
        IsHeld m (some t)
        → (v : Mutex S Attr) × (release ops t m ≡ returns (true, v)) × IsHeld v none
    unfolding release
    released own =
        let (s, run, held) = ops.unlock_own t m.mutex own.held in
        (record m { mutex = s }, rw run refl, record { whole = own.whole; held = held })

    released_by_other : (o : Option ℕ) → IsHeld m o → o ≢ some t → release ops t m ≡ aborts
    unfolding release
    released_by_other o h other = rw (ops.unlock_other t m.mutex o h.held other) refl

    tried_held : (u : ℕ) → IsHeld m (some u) → trylock ops self t m ≡ returns (false, m)
    unfolding trylock
    tried_held u h = ground (arith, h.whole, ops.trylock_held t u m.mutex h.held)

    -- `islocked` tells the truth, and leaves the mutex with the owner that it had.
    looked_free :
        IsHeld m none
        → (v : Mutex S Attr) × (islocked ops self t m ≡ returns (false, v)) × IsHeld v none
    unfolding islocked release
    looked_free free =
        let (s, run, held) = ops.trylock_free t m.mutex free.held in
        let (s', run', held') = ops.unlock_own t s held in
        (
          record m { mutex = s' },
          ground (arith, free.whole, run, run'),
          record { whole = free.whole; held = held' },
        )

    looked_held : (u : ℕ) → IsHeld m (some u) → islocked ops self t m ≡ returns (true, m)
    unfolding islocked
    looked_held u h = ground (arith, h.whole, ops.trylock_held t u m.mutex h.held)

  -- A free mutex, locked by a thread, is that thread's alone: any thread that tries to lock it is told
  -- no, a second `lock` by the thread and an `unlock` by any other end the process, and the thread's
  -- own `unlock` leaves it free.
  pub one_holder :
      (m : Mutex S Attr) (t : ℕ)
      → IsHeld m none
      → (v : Mutex S Attr) × (acquire ops self t m ≡ returns (true, v))
        × ((u : ℕ) → trylock ops self u v ≡ returns (false, v))
        × (acquire ops self t v ≡ aborts)
        × ((u : ℕ) → u ≢ t → release ops u v ≡ aborts)
        × ((w : Mutex S Attr) × (release ops t v ≡ returns (true, w)) × IsHeld w none)
  one_holder m t free =
      let (v, run, own) = acquired m t free in
      (
        v,
        run,
        λ u. tried_held v u t own,
        acquired_twice v t own,
        λ u other. released_by_other v u (some t) own λ same. other (ground arith),
        released v t own,
      )

  -- `islocked`, called by any thread, tells whether the mutex has an owner, and leaves it with the
  -- owner that it had.
  pub islocked_lem :
      (m : Mutex S Attr) (t : ℕ) (o : Option ℕ)
      → IsHeld m o
      → (v : Mutex S Attr) × (islocked ops self t m
          ≡ returns (elim o [ none ↦ false | some _ ↦ true ], v))
        × IsHeld v o
  islocked_lem m t none free = looked_free m t free
  islocked_lem m t (some u) h = (m, looked_held m t u h, h)

  asserted_cases : (c : Code) → (c ≡ ok) ⊎ ((A : Type 0) (a : A) → asserted c a ≡ aborts)
  asserted_cases ok = inl refl
  asserted_cases einval = inr λ A a. refl
  asserted_cases eagain = inr λ A a. refl
  asserted_cases edeadlk = inr λ A a. refl
  asserted_cases ebusy = inr λ A a. refl
  asserted_cases eperm = inr λ A a. refl
  asserted_cases enomem = inr λ A a. refl
  asserted_cases etimedout = inr λ A a. refl
  asserted_cases (other_error _) = inr λ A a. refl

  typed : Reply Attr
  typed = ops.attr_settype ops.attr_init.state error_check

  -- The constructor for a mutex that is not recursive, whatever pthread answers: it ends the process,
  -- or the object is whole and its mutex free.
  pub construct_lem :
      (construct ops self false ≡ aborts)
      ⊎ ((m : Mutex S Attr) × (construct ops self false ≡ returns m) × IsHeld m none)
  unfolding construct typed
  construct_lem = elim (asserted_cases ops.attr_init.code) [
    | inr fails ↦ inl (rw (fails Attr ops.attr_init.state) refl)
    | inl init_ok ↦ elim (asserted_cases typed.code) [
      | inr fails ↦ inl (rw (init_ok, fails Attr typed.state) refl)
      | inl type_ok ↦ elim (asserted_cases (ops.mutex_init typed.state).code) [
        | inr fails ↦ inl (rw (init_ok, type_ok, fails S (ops.mutex_init typed.state).state) refl)
        | inl made ↦ inr (
          record { magic = self; mutex = (ops.mutex_init typed.state).state; attr = typed.state },
          rw (init_ok, type_ok, made) refl,
          record {
            whole = refl;
            held = ops.Held-init typed.state (ops.Checks-settype ops.attr_init.state type_ok) made;
          },
        )
      ]
    ]
  ]

  abbrev owner : ℕ → Bool → Option ℕ
  owner t locked = if locked then some t else none

  -- The flag of the proxy's mutex agrees with an object, for one thread.
  abbrev pub Agrees : ℕ → World → Mutex S Attr → Type 0
  Agrees t w m = IsHeld m (owner t w.locked)

  -- What the proxy's `lock` and `unlock` do with their flag is what the methods of the class do for a
  -- thread that is the only one: both end the process, or both go on and agree again.
  pub lock-Agrees :
      (t : ℕ) (w : World) (m : Mutex S Attr)
      → Agrees t w m
      → ((lock w ≡ none) × (acquire ops self t m ≡ aborts)
          ⊎ ((v : World) × (n : Mutex S Attr) × (lock w ≡ some (tt, v))
              × (acquire ops self t m ≡ returns (true, n))
              × Agrees t v n))
        × ((unlock w ≡ none) × (release ops t m ≡ aborts)
            ⊎ ((v : World) × (n : Mutex S Attr) × (unlock w ≡ some (tt, v))
                × (release ops t m ≡ returns (true, n))
                × Agrees t v n))
  unfolding lock unlock
  lock-Agrees t w m agrees = elim (Bool-cases w.locked) [
    | inl on ↦
        let own : IsHeld m (some t) = subst (λ o. IsHeld m o) (ap (owner t) on) agrees in
        let (n, run, free) = released m t own in
        (
          inl (ground arith, acquired_twice m t own),
          inr (record w { locked = false }, n, ground arith, run, free),
        )
    | inr off ↦
        let free : IsHeld m none = subst (λ o. IsHeld m o) (ap (owner t) off) agrees in
        let (n, run, own) = acquired m t free in
        (
          inr (record w { locked = true }, n, ground arith, run, own),
          inl (ground arith, released_by_other m t none free λ same. absurd (ground arith)),
        )
  ]
