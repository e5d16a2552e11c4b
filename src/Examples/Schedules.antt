-- ===== src/Examples/Schedules.antt =====
-- Two threads that send at once, and the ends of calls at the map.
use mars_wrapper.Prelude.{◌+◌, ℕ, ◌*◌, ◌≤◌, ◌≡◌, refl, List, [], ◌∷◌, none, some, arith}
use mars_wrapper.Prelude.Int.{pos}
use mars_wrapper.Platform.{ListBuffer, list_buffer, little_endian}
use mars_wrapper.Memory.{update}
use mars_wrapper.Proxy.Owned.{Inv, pending}
use mars_wrapper.Proxy.Threads.{
  System, Reach, here, later, pick, idle, store_locked, store_locks, remove_reading, remove_reads,
}
use mars_wrapper.Proxy.Threads.Progress.{AtRest, calls_end}
use mars_wrapper.Proxy.Threads.Rank.{Run, stop}
use mars_wrapper.Session.{ends, view}
use mars_wrapper.Session.Threads.{
  Act, prepares, stores, starts, comes, Threads, threads_start, perform_all, plan_act, plan_all,
  plan_start, waits, AllAllowed,
}
use mars_wrapper.Session.Threads.Refinement.{run_threads}
use mars_wrapper.Examples.{hi}

-- The second request overtakes the first, and its task has ended when that of the first is started.
abbrev schedule : List (Act ListBuffer)
schedule =
    prepares hi 2 (some 7)
    ∷ prepares hi 1 (some 8)
    ∷ stores 10001
    ∷ starts 10001
    ∷ stores 10000
    ∷ comes (ends 10001 0 (pos 0))
    ∷ starts 10000
    ∷ []

schedule-AllAllowed : AllAllowed list_buffer schedule plan_start
unfolding plan_act
schedule-AllAllowed = (
  (omega arith, omega arith, omega arith),
  (
    (omega arith, omega arith, omega arith),
    (
      ((some 8, b'h' ∷ []), refl),
      (
        ((some 8, b'h' ∷ []), refl),
        (((some 7, hi), refl), ((tt, ((some 8, b'h' ∷ []), refl)), (((some 7, hi), refl), tt))),
      ),
    ),
  ),
)

run_threads_example :
    (v : Threads) × (perform_all list_buffer schedule threads_start ≡ some v)
    × Inv v.world
    × (view v.world ≡ (plan_all list_buffer schedule plan_start).model)
    × ((t : ℕ) → pending v.world t ≡ waits ((plan_all list_buffer schedule plan_start).stage t))
run_threads_example = run_threads list_buffer schedule schedule-AllAllowed

first_waits : waits ((plan_all list_buffer schedule plan_start).stage 10000) ≡ some (some 7, hi)
unfolding plan_all plan_act
first_waits = refl

second_is_over : waits ((plan_all list_buffer schedule plan_start).stage 10001) ≡ none
unfolding plan_all plan_act
second_is_over = refl

-- Thread 0 has locked the mutex to store, and thread 1 looks up what it will remove.
abbrev two_calls : System
two_calls = record {
  owner = some 0;
  pc = update (update (λ _. idle) 0 store_locked) 1 remove_reading;
}

two_calls-Reach : Reach two_calls
two_calls-Reach = later (later here (pick 0 store_locks)) (pick 1 remove_reads)

calls_end_example : (u : System) × (j : ℕ) × Run two_calls u j × AtRest u × (0 + j ≤ 7 * 2)
calls_end_example = calls_end 2 two_calls-Reach (λ i above. ground (arith, above)) stop
