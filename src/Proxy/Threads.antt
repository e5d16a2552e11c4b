-- ===== src/Proxy/Threads.antt =====
-- The accesses of several threads to the map of src/proxy/mars_task_proxy.cpp, interleaved in any
-- order: what each function does with the mutex and the map, one step after another. An access to the
-- map takes time: a thread is in it from one step to the next.
pub mod Races
pub mod Rank
pub mod Progress
use mars_wrapper.Prelude.{ℕ, ◌≡◌, ◌≢◌, Option, none, some}
use mars_wrapper.Memory.{update}

pub data Pc : Type 0 where
  idle : Pc
  -- storeContext: locked, in `[taskId] = ctx`, behind it, in its own `getTaskConext`, behind that
  store_locked : Pc
  store_writing : Pc
  store_written : Pc
  store_reading : Pc
  store_read : Pc
  -- a callback in `getTaskConext`
  get_reading : Pc
  -- removeTaskContext: in `getTaskConext`, behind it, message deleted, locked, in `erase`, behind it,
  -- unlocked
  remove_reading : Pc
  remove_found : Pc
  remove_freed : Pc
  remove_locked : Pc
  remove_erasing : Pc
  remove_erased : Pc
  remove_unlocked : Pc

-- The owner of the mutex, before and after.
pub data Move (i : ℕ) : Pc → Option ℕ → Pc → Option ℕ → Type 0 where
  store_locks : Move i idle none store_locked (some i)
  store_writes : {o : Option ℕ} → Move i store_locked o store_writing o
  store_wrote : {o : Option ℕ} → Move i store_writing o store_written o
  store_reads : {o : Option ℕ} → Move i store_written o store_reading o
  store_reads_end : {o : Option ℕ} → Move i store_reading o store_read o
  store_unlocks : {o : Option ℕ} → o ≡ some i → Move i store_read o idle none
  get_reads : {o : Option ℕ} → Move i idle o get_reading o
  get_reads_end : {o : Option ℕ} → Move i get_reading o idle o
  remove_reads : {o : Option ℕ} → Move i idle o remove_reading o
  -- null, or a context
  remove_misses : {o : Option ℕ} → Move i remove_reading o idle o
  remove_finds : {o : Option ℕ} → Move i remove_reading o remove_found o
  remove_frees : {o : Option ℕ} → Move i remove_found o remove_freed o
  remove_locks : Move i remove_freed none remove_locked (some i)
  remove_erases : {o : Option ℕ} → Move i remove_locked o remove_erasing o
  remove_erases_end : {o : Option ℕ} → Move i remove_erasing o remove_erased o
  remove_unlocks : {o : Option ℕ} → o ≡ some i → Move i remove_erased o remove_unlocked none
  remove_deletes : {o : Option ℕ} → Move i remove_unlocked o idle o

pub record System : Type 0 where
  pub owner : Option ℕ
  pub pc : ℕ → Pc

abbrev pub start : System
start = record { owner = none; pc = λ _. idle }

pub data Step (s : System) : System → Type 0 where
  pick :
      (i : ℕ) {p : Pc} {o : Option ℕ}
      → Move i (s.pc i) s.owner p o
      → Step s (record { owner = o; pc = update s.pc i p })

pub data Reach : System → Type 0 where
  here : Reach start
  later : {s t : System} → Reach s → Step s t → Reach t
