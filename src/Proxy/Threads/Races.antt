-- ===== src/Proxy/Threads/Races.antt =====
-- What the mutex of the map does, and what it leaves open.
use mars_wrapper.Prelude.{
  ℕ, ◌≡◌, ◌≢◌, refl, sym, ap, ◌∙◌, Bool, true, false, Option, some, arith, ℕ_discrete, eq_of_some,
  Bool-cases, inl, inr, subst,
}
use mars_wrapper.Memory.{update}
use mars_wrapper.Proxy.Threads.{
  Pc, idle, store_locked, store_writing, store_written, store_reading, store_read, get_reading,
  remove_reading, remove_found, remove_freed, remove_locked, remove_erasing, remove_erased,
  remove_unlocked, Move, store_locks, store_writes, store_wrote, store_reads, store_reads_end,
  store_unlocks, get_reads, get_reads_end, remove_reads, remove_misses, remove_finds, remove_frees,
  remove_locks, remove_erases, remove_erases_end, remove_unlocks, remove_deletes, System, Step,
  pick, Reach, here, later,
}

-- Between `lock` and `unlock`.
abbrev pub holds : Pc → Bool
holds idle = false
holds store_locked = true
holds store_writing = true
holds store_written = true
holds store_reading = true
holds store_read = true
holds get_reading = false
holds remove_reading = false
holds remove_found = false
holds remove_freed = false
holds remove_locked = true
holds remove_erasing = true
holds remove_erased = true
holds remove_unlocked = false

-- In a change of the map: the assignment, or `erase`.
abbrev pub writes : Pc → Bool
writes idle = false
writes store_locked = false
writes store_writing = true
writes store_written = false
writes store_reading = false
writes store_read = false
writes get_reading = false
writes remove_reading = false
writes remove_found = false
writes remove_freed = false
writes remove_locked = false
writes remove_erasing = true
writes remove_erased = false
writes remove_unlocked = false

-- Who holds the mutex is its owner.
abbrev pub Exclusive : System → Type 0
Exclusive s = (i : ℕ) → holds (s.pc i) ≡ true → s.owner ≡ some i

-- A move of a thread that is not the owner leaves the owner, or the mutex was free; and whether the
-- thread holds the mutex after the move, it is the owner.
Move-Exclusive :
    (i : ℕ) {p q : Pc} {o u : Option ℕ}
    → Move i p o q u
    → (holds p ≡ true → o ≡ some i)
    → (holds q ≡ true → u ≡ some i)
Move-Exclusive i store_locks own held = refl
Move-Exclusive i store_writes own held = own refl
Move-Exclusive i store_wrote own held = own refl
Move-Exclusive i store_reads own held = own refl
Move-Exclusive i store_reads_end own held = own refl
Move-Exclusive i (store_unlocks e) own held = absurd (cc held)
Move-Exclusive i get_reads own held = absurd (cc held)
Move-Exclusive i get_reads_end own held = absurd (cc held)
Move-Exclusive i remove_reads own held = absurd (cc held)
Move-Exclusive i remove_misses own held = absurd (cc held)
Move-Exclusive i remove_finds own held = absurd (cc held)
Move-Exclusive i remove_frees own held = absurd (cc held)
Move-Exclusive i remove_locks own held = refl
Move-Exclusive i remove_erases own held = own refl
Move-Exclusive i remove_erases_end own held = own refl
Move-Exclusive i (remove_unlocks e) own held = absurd (cc held)
Move-Exclusive i remove_deletes own held = absurd (cc held)

-- Another owner stays.
Move-other :
    (i j : ℕ) {p q : Pc} {o u : Option ℕ} → Move i p o q u → i ≢ j → o ≡ some j → u ≡ some j
Move-other i j store_locks other owner = absurd (cc owner)
Move-other i j store_writes other owner = owner
Move-other i j store_wrote other owner = owner
Move-other i j store_reads other owner = owner
Move-other i j store_reads_end other owner = owner
Move-other i j (store_unlocks e) other owner = absurd (other (eq_of_some (sym e ∙ owner)))
Move-other i j get_reads other owner = owner
Move-other i j get_reads_end other owner = owner
Move-other i j remove_reads other owner = owner
Move-other i j remove_misses other owner = owner
Move-other i j remove_finds other owner = owner
Move-other i j remove_frees other owner = owner
Move-other i j remove_locks other owner = absurd (cc owner)
Move-other i j remove_erases other owner = owner
Move-other i j remove_erases_end other owner = owner
Move-other i j (remove_unlocks e) other owner = absurd (other (eq_of_some (sym e ∙ owner)))
Move-other i j remove_deletes other owner = owner

Step-Exclusive : {s t : System} → Exclusive s → Step s t → Exclusive t
Step-Exclusive {s} own (pick i {p} move) j held = elim (ℕ_discrete i j) [
  | yes same ↦ Move-Exclusive i move (own i) (ap holds (at_own same) ∙ held) ∙ ap some same
  | no other ↦ Move-other i j move other (own j (ap holds (elsewhere other) ∙ held))
]
  where
    at_own : i ≡ j → p ≡ update s.pc i p j
    at_own same = ground arith

    elsewhere : i ≢ j → s.pc j ≡ update s.pc i p j
    elsewhere other = ground arith

pub Reach-Exclusive : {s : System} → Reach s → Exclusive s
Reach-Exclusive here = λ i held. absurd (cc held)
Reach-Exclusive (later r st) = Step-Exclusive (Reach-Exclusive r) st

writes→holds : (p : Pc) → writes p ≡ true → holds p ≡ true
writes→holds idle w = absurd (cc w)
writes→holds store_locked w = absurd (cc w)
writes→holds store_writing w = refl
writes→holds store_written w = absurd (cc w)
writes→holds store_reading w = absurd (cc w)
writes→holds store_read w = absurd (cc w)
writes→holds get_reading w = absurd (cc w)
writes→holds remove_reading w = absurd (cc w)
writes→holds remove_found w = absurd (cc w)
writes→holds remove_freed w = absurd (cc w)
writes→holds remove_locked w = absurd (cc w)
writes→holds remove_erasing w = refl
writes→holds remove_erased w = absurd (cc w)
writes→holds remove_unlocked w = absurd (cc w)

-- In every interleaving of any number of threads: while one thread changes the map, no other is between
-- `lock` and `unlock`, so none other changes it, nor is any other in the look-up of `storeContext`.
pub writes_alone :
    {s : System} → Reach s → (i j : ℕ) → i ≢ j → writes (s.pc i) ≡ true → holds (s.pc j) ≡ false
writes_alone {s} r i j other writing = elim (Bool-cases (holds (s.pc j))) [
  | inl held ↦
      let own = Reach-Exclusive r in
      absurd (other (eq_of_some (sym (own i (writes→holds (s.pc i) writing)) ∙ own j held)))
  | inr free ↦ free
]

-- The look-ups outside the mutex are not excluded: for any two threads there is an interleaving in
-- which one is in the assignment of `storeContext` while the other is in the `getTaskConext` of a
-- callback, and one in which the other is in that of `removeTaskContext`.
pub reads_race :
    (i j : ℕ)
    → i ≢ j
    → ((s : System) × Reach s × (s.pc i ≡ store_writing) × (s.pc j ≡ get_reading))
      × ((s : System) × Reach s × (s.pc i ≡ store_writing) × (s.pc j ≡ remove_reading))
reads_race i j other = (
  (
    at get_reading,
    later stored (pick j (subst (λ p. Move j p (some i) get_reading (some i)) still get_reads)),
    ground arith,
    ground arith,
  ),
  (
    at remove_reading,
    later stored
        (pick j (subst (λ p. Move j p (some i) remove_reading (some i)) still remove_reads)),
    ground arith,
    ground arith,
  ),
)
  where
    storing : System
    storing = record {
      owner = some i;
      pc = update (update (λ _. idle) i store_locked) i store_writing;
    }

    at : Pc → System
    at p = record { owner = some i; pc = update storing.pc j p }

    locked : update (λ (_ : ℕ). idle) i store_locked i ≡ store_locked
    locked = ground arith

    stored : Reach storing
    stored =
        later (later here (pick i store_locks))
          (pick i (subst (λ p. Move i p (some i) store_writing (some i)) (sym locked) store_writes))

    still : idle ≡ storing.pc j
    still = ground arith
