-- ===== src/Proxy/Threads/Rank.antt =====
-- How many steps the calls at the map have before them.
use mars_wrapper.Prelude.{
  ℕ, zero, suc, ◌+◌, ◌≤◌, ◌<◌, ◌≡◌, ◌≢◌, refl, Option, arith, ℕ_discrete, ◌*◌,
}
use mars_wrapper.Memory.{update}
use mars_wrapper.Proxy.Threads.{
  Pc, idle, store_locked, store_writing, store_written, store_reading, store_read, get_reading,
  remove_reading, remove_found, remove_freed, remove_locked, remove_erasing, remove_erased,
  remove_unlocked, Move, store_locks, store_writes, store_wrote, store_reads, store_reads_end,
  store_unlocks, get_reads, get_reads_end, remove_reads, remove_misses, remove_finds, remove_frees,
  remove_locks, remove_erases, remove_erases_end, remove_unlocks, remove_deletes, System,
}

-- How many steps a call has before it, at most.
abbrev pub rank : Pc → ℕ
rank idle = 0
rank store_locked = 5
rank store_writing = 4
rank store_written = 3
rank store_reading = 2
rank store_read = 1
rank get_reading = 1
rank remove_reading = 7
rank remove_found = 6
rank remove_freed = 5
rank remove_locked = 4
rank remove_erasing = 3
rank remove_erased = 2
rank remove_unlocked = 1

-- The steps that threads numbered below `n` have before them.
abbrev pub total : ℕ → (ℕ → Pc) → ℕ
total zero pc = 0
total (suc n) pc = rank (pc n) + total n pc

-- A step of a call that has begun.
pub data Goes (s : System) : System → Type 0 where
  goes :
      (i : ℕ) {p : Pc} {o : Option ℕ}
      → s.pc i ≢ idle
      → Move i (s.pc i) s.owner p o
      → Goes s (record { owner = o; pc = update s.pc i p })

-- So many such steps, one after another.
pub data Run : System → System → ℕ → Type 0 where
  stop : {s : System} → Run s s zero
  next : {s t u : System} {k : ℕ} → Goes s t → Run t u k → Run s u (suc k)

pub Move-rank : {i : ℕ} {p q : Pc} {o u : Option ℕ} → Move i p o q u → p ≢ idle → rank q < rank p
Move-rank store_locks busy = absurd (busy refl)
Move-rank store_writes busy = omega arith
Move-rank store_wrote busy = omega arith
Move-rank store_reads busy = omega arith
Move-rank store_reads_end busy = omega arith
Move-rank (store_unlocks _) busy = omega arith
Move-rank get_reads busy = absurd (busy refl)
Move-rank get_reads_end busy = omega arith
Move-rank remove_reads busy = absurd (busy refl)
Move-rank remove_misses busy = omega arith
Move-rank remove_finds busy = omega arith
Move-rank remove_frees busy = omega arith
Move-rank remove_locks busy = omega arith
Move-rank remove_erases busy = omega arith
Move-rank remove_erases_end busy = omega arith
Move-rank (remove_unlocks _) busy = omega arith
Move-rank remove_deletes busy = omega arith

total-elsewhere : (n i : ℕ) (pc : ℕ → Pc) (p : Pc) → n ≤ i → total n (update pc i p) ≡ total n pc
total-elsewhere zero i pc p above = refl
total-elsewhere (suc n) i pc p above = ground (arith, total-elsewhere n i pc p (omega arith), above)

pub total-update :
    (n i : ℕ) (pc : ℕ → Pc) (p : Pc)
    → i < n
    → rank p < rank (pc i)
    → total n (update pc i p) < total n pc
total-update zero i pc p below less = absurd (omega arith)
total-update (suc n) i pc p below less = elim (ℕ_discrete i n) [
  | yes last ↦ ground (arith, last, less, total-elsewhere n i pc p (omega (arith, last)))
  | no other ↦ ground (arith, other, total-update n i pc p (omega (arith, other)) less)
]

rank-le : (p : Pc) → rank p ≤ 7
rank-le idle = omega arith
rank-le p = omega arith

pub total-le : (n : ℕ) (pc : ℕ → Pc) → total n pc ≤ 7 * n
total-le zero pc = omega arith
total-le (suc n) pc = omega (arith, rank-le (pc n), total-le n pc)
