-- ===== src/Examples/Races.antt =====
-- Threads at the map of the proxy, and at the counter of the numbers.
use mars_wrapper.Prelude.{◌≡◌, refl, false, [], ◌∷◌, some, arith}
use mars_wrapper.Message.Counter.{Counting, act_all, counting_from, overlapped, number_again}
use mars_wrapper.Proxy.Threads.{
  store_locked, store_writing, get_reading, remove_reading, store_locks, store_writes, System,
  start, pick, Reach, here, later,
}
use mars_wrapper.Memory.{update}
use mars_wrapper.Proxy.Threads.Races.{holds, writes_alone, reads_race}

-- Thread 1 has locked the mutex, and is in the assignment.
abbrev storing : System
storing = record { owner = some 1; pc = update (update start.pc 1 store_locked) 1 store_writing }

abbrev storing-Reach : Reach storing
storing-Reach = later (later here (pick 1 store_locks)) (pick 1 store_writes)

writes_alone_example : holds (storing.pc 2) ≡ false
writes_alone_example = writes_alone storing-Reach 1 2 (omega arith) refl

reads_race_example :
    ((s : System) × Reach s × (s.pc 1 ≡ store_writing) × (s.pc 2 ≡ get_reading))
    × ((s : System) × Reach s × (s.pc 1 ≡ store_writing) × (s.pc 2 ≡ remove_reading))
reads_race_example = reads_race 1 2 (omega arith)

number_again_example :
    (s : Counting) × (act_all (overlapped 1 2 2) (counting_from 10000) ≡ some s)
    × (s.given ≡ (1, 10000) ∷ (2, 10001) ∷ (2, 10000) ∷ [])
    × (s.counter ≡ 10001)
number_again_example = number_again 1 2 1 10000 (omega arith) (omega arith)
