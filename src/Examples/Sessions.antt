-- ===== src/Examples/Sessions.antt =====
-- Whole sessions, from `init` on, requests that replace others, and two threads at one task.
use mars_wrapper.Prelude.{
  ℕ, refl, ◌≡◌, ◌≢◌, ◌∙◌, List, [], ◌∷◌, none, some, arith, ◌==◌, if◌then◌else◌,
}
use mars_wrapper.Prelude.Int.{ℤ, pos}
use mars_wrapper.Memory.{World, initial, to_stn}
use mars_wrapper.Platform.{ListBuffer, little_endian, list_buffer}
use mars_wrapper.Proxy.{remove_found}
use mars_wrapper.Proxy.Owned.{Inv, pending}
use mars_wrapper.Callback.{req2buf_found, buf2resp_found, end_found}
use mars_wrapper.Callback.{on_task_end}
use mars_wrapper.Callback.ErrorCode.{on_task_end-code, over_http}
use mars_wrapper.Mars.Errors.{Reason, reason_code, LongError, long_code, http_code}
use mars_wrapper.Task.{ect_net_msg_xp, ect_http}
use mars_wrapper.Callback.Overtaken.{overtaken, overtaken_faults}
use mars_wrapper.Plus.{MarsConfig, mars_config, init, send_message, request_task}
use mars_wrapper.Proxy.Keep.{Entry-grown, pending-grown}
use mars_wrapper.Plus.Replaced.{send_message_replaces}
use mars_wrapper.Proxy.Leaks.{Owns}
use mars_wrapper.Mars.{start_task}
use mars_wrapper.Session.{Event, sends, run, AllSound}
use mars_wrapper.Session.Traffic.{to_library, init_calls, started, run_traffic}
use mars_wrapper.Examples.{hi, waiting_world, waiting_world-Inv, hi_waits}
use mars_wrapper.Examples.Requests.{session, session-AllSound}

abbrev local_config : MarsConfig
local_config = mars_config "localhost" 9001

run_traffic_example :
    (w : World) × (v : World) × (init local_config initial ≡ some (pos 0, w))
    × (run list_buffer session w ≡ some v)
    × (to_library v.log ≡ started 10000 session (init_calls local_config))
run_traffic_example = run_traffic list_buffer local_config session session-AllSound

-- Two requests, of which the second ends before the first is answered.
abbrev two_requests : List (Event ListBuffer)
two_requests = sends hi 2 (some 7) ∷ sends hi 1 (some 8) ∷ []

two_requests-AllSound : AllSound list_buffer two_requests
two_requests-AllSound = omega arith

overtaken_faults_example :
    ((out : ListBuffer)
      → overtaken 10000 0 (pos 0) (λ ctx. req2buf_found list_buffer ctx out) waiting_world ≡ none)
    × ((packet : List ℕ)
        → overtaken 10000 0 (pos 0) (λ ctx. buf2resp_found ctx packet) waiting_world ≡ none)
    × ((type' : ℕ) (code' : ℤ)
        → overtaken 10000 0 (pos 0) (λ ctx. end_found 10000 ctx type' code') waiting_world ≡ none)
    × (overtaken 10000 0 (pos 0) (remove_found 10000) waiting_world ≡ none)
overtaken_faults_example =
    overtaken_faults list_buffer waiting_world-Inv 10000 0 (pos 0) (some 7) hi hi_waits

-- The counter has come round to the number of the request that waits.
abbrev round_world : World
round_world = record waiting_world { message_id = 10000 }

round_world-Inv : Inv round_world
round_world-Inv = record {
  id_fits = omega arith;
  unlocked = waiting_world-Inv.unlocked;
  fresh = waiting_world-Inv.fresh;
  owned = λ s c there.
      Entry-grown round_world waiting_world-Inv (λ p _. refl) (waiting_world-Inv.owned s c there);
}

send_message_replaces_example :
    (v : World) × (a : ℕ) × (send_message hi 1 (some 8) round_world ≡ some (pos 0, v))
    × ((s : ℕ)
        → pending v s ≡ (if 10000 == s then some (some 8, b'h' ∷ []) else pending round_world s))
    × (v.log ≡ to_stn (start_task (request_task 10000)) ∷ round_world.log)
    × Owns round_world 10000 a
    × ((p : ℕ)
        → Owns round_world 10000 p
        → (v.cells p ≡ round_world.cells p) × (v.cells p ≢ none) × ((s : ℕ) → ¬ Owns v s p))
send_message_replaces_example =
    send_message_replaces round_world-Inv hi 1 (some 8) (omega arith) (omega arith) (some 7) hi
      (pending-grown round_world waiting_world-Inv (λ p _. refl) 10000 refl ∙ hi_waits)

on_task_end-code_example :
    ((code : ℤ) → on_task_end 10000 6 code waiting_world ≡ on_task_end 10000 5 code waiting_world)
    × ((c d : ℤ)
        → on_task_end 10000 6 c waiting_world ≡ on_task_end 10000 5 d waiting_world
        → c ≡ d)
    × ((x y : Reason)
        → on_task_end 10000 6 (reason_code x) waiting_world
          ≡ on_task_end 10000 5 (reason_code y) waiting_world
        → x ≡ y)
    × ((x : LongError)
        → on_task_end 10000 6 (long_code x) waiting_world
          ≡ on_task_end 10000 5 (http_code (over_http x)) waiting_world)
on_task_end-code_example =
    on_task_end-code waiting_world-Inv 10000 7 hi hi_waits ect_net_msg_xp ect_http
      (λ same. absurd (cc same)) (λ same. absurd (cc same))
