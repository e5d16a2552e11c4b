-- ===== src/Singleton/Race.antt =====
-- `Instance` of src/proxy/stn_callback.cpp and src/proxy/app_callback.cpp in two threads: it takes no
-- mutex, so both may see the null pointer before either has put its object there.
use mars_wrapper.Prelude.{
  ℕ, suc, ◌<◌, ◌≡◌, ◌≢◌, refl, sym, ap, ◌∙◌, Bool, true, false, Option, none, some, List, [], ◌∷◌,
  ◌++◌, arith, Option-cases, inl, inr, if◌then◌else◌,
}
use mars_wrapper.Memory.{update}
use mars_wrapper.Singleton.{
  Singleton, make_instance, get_instance, release, Use, gets, releases, use_all,
}

-- The object `p` is alive, and no pointer leads to it; the one that the pointer names is alive.
pub record IsLost (p : ℕ) (s : Singleton) : Type 0 where
  pub alive : s.alive p ≡ true
  pub apart : s.current ≢ some p
  pub below : p < s.next
  pub current_alive : (q : ℕ) → s.current ≡ some q → s.alive q ≡ true

module _ {p : ℕ} (s : Singleton) (lost : IsLost p s) where
  get_instance-IsLost : IsLost p ((get_instance s).1)
  unfolding get_instance
  get_instance-IsLost = elim (Option-cases s.current) [
    | inl missing ↦ record {
      alive = ground (arith, missing, lost.alive, lost.below);
      apart = λ same. ground (arith, missing, same, lost.below);
      below = ground (arith, missing, lost.below);
      current_alive = λ q there. ground (arith, missing, there);
    }
    | inr (q, there) ↦ record {
      alive = ground (arith, there, lost.alive);
      apart = λ same. ground (arith, there, same, lost.apart);
      below = ground (arith, there, lost.below);
      current_alive = λ r same. ground (arith, there, same, lost.current_alive r);
    }
  ]

  release-IsLost : (v : Singleton) × (release s ≡ some v) × IsLost p v
  unfolding release
  release-IsLost = elim (Option-cases s.current) [
    | inl missing ↦ (s, ground (arith, missing), lost)
    | inr (q, there) ↦ (
      record s { current = none; alive = update s.alive q false },
      ground (arith, there, lost.current_alive q),
      record {
        alive = ground (arith, there, lost.alive, lost.apart);
        apart = λ same. absurd (cc same);
        below = lost.below;
        current_alive = λ r same. absurd (cc same);
      },
    )
  ]

stays-IsLost :
    {p : ℕ} (us : List Use) (s : Singleton)
    → IsLost p s
    → (v : Singleton) × (use_all us s ≡ some v) × IsLost p v
unfolding use_all
stays-IsLost [] s lost = (s, refl, lost)
stays-IsLost (gets ∷ us) s lost = stays-IsLost us ((get_instance s).1) (get_instance-IsLost s lost)
stays-IsLost (releases ∷ us) s lost =
    let (v, run, lost') = release-IsLost s lost in
    let (u, later, lost'') = stays-IsLost us v lost' in (u, rw (run, use_all) later, lost'')

-- What `Instance` does in a thread: it looks whether the pointer is null, makes an object if it was,
-- and reads the pointer again to return it.
pub data Access : Type 0 where
  looks : ℕ → Access
  makes : ℕ → Access
  answers : ℕ → Access

-- The shared state, which threads saw null, and who was given what, the newest first.
pub record Instances : Type 0 where
  pub shared : Singleton
  pub saw_null : ℕ → Bool
  pub given : List (ℕ × Option ℕ)

abbrev pub is_null : Option ℕ → Bool
is_null none = true
is_null (some p) = false

unfoldable pub access : Access → Instances → Instances
access (looks i) c = record c { saw_null = update c.saw_null i (is_null c.shared.current) }
access (makes i) c = if c.saw_null i then record c { shared = make_instance c.shared } else c
access (answers i) c = record c { given = (i, c.shared.current) ∷ c.given }

unfoldable pub access_all : List Access → Instances → Instances
access_all [] c = c
access_all (a ∷ rest) c = access_all rest (access a c)

abbrev pub before : Singleton → Instances
before s = record { shared = s; saw_null = λ _. false; given = [] }

abbrev pub call_of : ℕ → List Access
call_of i = looks i ∷ makes i ∷ answers i ∷ []

-- A call with nothing of another thread in between is `get_instance`.
call_alone :
    (s : Singleton) (i : ℕ)
    → let c = access_all (call_of i) (before s) in
      (c.shared ≡ (get_instance s).1) × (c.given ≡ (i, some ((get_instance s).0)) ∷ [])
unfolding access_all access get_instance
call_alone s i = elim (Option-cases s.current) [
  | inl missing ↦ ground (arith, missing)
  | inr (p, there) ↦ ground (arith, there)
]

-- Both threads look before either makes its object. Then the first is answered after the second has
-- made its own, or before.
abbrev pub answered_late : ℕ → ℕ → List Access
answered_late i j = looks i ∷ looks j ∷ makes i ∷ makes j ∷ answers i ∷ answers j ∷ []

abbrev pub answered_early : ℕ → ℕ → List Access
answered_early i j = looks i ∷ looks j ∷ makes i ∷ answers i ∷ makes j ∷ answers j ∷ []

module _ (s : Singleton) (i j : ℕ) (other : i ≢ j) (missing : s.current ≡ none) where
  -- The state in which both objects are made.
  abbrev twice : Singleton
  twice = make_instance (make_instance s)

  late_lem :
      let c = access_all (answered_late i j) (before s) in
      (c.shared ≡ twice) × (c.given ≡ (j, some (suc s.next)) ∷ (i, some (suc s.next)) ∷ [])
  unfolding access_all access
  late_lem = ground (arith, missing, other)

  early_lem :
      let c = access_all (answered_early i j) (before s) in
      (c.shared ≡ twice) × (c.given ≡ (j, some (suc s.next)) ∷ (i, some s.next) ∷ [])
  unfolding access_all access
  early_lem = ground (arith, missing, other)

  in_turn_lem :
      let c = access_all (call_of i ++ call_of j) (before s) in
      (c.shared ≡ make_instance s) × (c.given ≡ (j, some s.next) ∷ (i, some s.next) ∷ [])
  unfolding access_all access
  in_turn_lem = ground (arith, missing, other)

  twice-IsLost : IsLost (s.next) twice
  twice-IsLost = record {
    alive = ground arith;
    apart = λ same. ground (arith, same);
    below = omega arith;
    current_alive = λ q there. ground (arith, there);
  }

  -- The pointer is null, and two threads call `Instance`. If the second looks after the first is done,
  -- both are given one object. If both look before either has made its object, each makes one, of
  -- different addresses: the first thread is given its own if it returns before the second has put the
  -- other there, and the other if it returns later. Either way the state is the same, its pointer names
  -- the second object, and, whatever calls of `Instance` and `Release` follow, one after another, none
  -- faults, and the first object is never named again and never deleted.
  pub instances_race :
      (us : List Use)
      → (p : ℕ) × (q : ℕ) × (v : Singleton) × (p ≢ q)
        × ((access_all (call_of i ++ call_of j) (before s)).given ≡ (j, some p) ∷ (i, some p) ∷ [])
        × ((access_all (answered_early i j) (before s)).given ≡ (j, some q) ∷ (i, some p) ∷ [])
        × ((access_all (answered_late i j) (before s)).given ≡ (j, some q) ∷ (i, some q) ∷ [])
        × ((access_all (answered_early i j) (before s)).shared
            ≡ (access_all (answered_late i j) (before s)).shared)
        × ((access_all (answered_late i j) (before s)).shared.current ≡ some q)
        × (use_all us ((access_all (answered_late i j) (before s)).shared) ≡ some v)
        × (v.alive p ≡ true)
        × (v.current ≢ some p)
  instances_race us =
      let (v, run, lost) = stays-IsLost us twice twice-IsLost in
      let (_, in_turn) = in_turn_lem in
      let (made, early) = early_lem in
      let (made', late) = late_lem in
      (
        s.next,
        suc s.next,
        v,
        λ same. absurd (omega (arith, same)),
        in_turn,
        early,
        late,
        made ∙ sym made',
        ap (λ c. c.current) made',
        ap (use_all us) made' ∙ run,
        lost.alive,
        lost.apart,
      )
