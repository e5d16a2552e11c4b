-- ===== src/Examples/Requests.antt =====
-- Requests, responses, pushes and sessions.
use mars_wrapper.Prelude.{ℕ, ◌≡◌, List, [], ◌∷◌, none, some, true, arith, take, if◌then◌else◌, ◌==◌}
use mars_wrapper.Prelude.Int.{pos, negsuc}
use mars_wrapper.Mars.{start_task}
use mars_wrapper.Memory.{World, SameListeners, initial, on_response, on_success, to_stn}
use mars_wrapper.Message.Frame.{frame}
use mars_wrapper.Message.Header.{len_of, body_of}
use mars_wrapper.Platform.{
  ListBuffer, little_endian, list_buffer, empty_buffer, empty_buffer-IsFresh,
}
use mars_wrapper.Proxy.Owned.{Inv, pending, initial-Inv}
use mars_wrapper.Callback.{req2buf, buf2resp, on_task_end}
use mars_wrapper.Callback.Freed.{on_task_end_frees}
use mars_wrapper.Callback.Request.{req2buf-pending}
use mars_wrapper.Callback.Response.{buf2resp-pending}
use mars_wrapper.Plus.{send_message, request_task}
use mars_wrapper.Plus.Pending.{send_message-pending}
use mars_wrapper.Session.{Event, sends, asks, responds, ends, view, run, model_run, AllSound}
use mars_wrapper.Session.Refinement.{run_refines_model}
use mars_wrapper.Session.Numbers.{next_number_is_free}
use mars_wrapper.Task.{noop_task_id}
use mars_wrapper.Longlink.{longlink_ispush}
use mars_wrapper.Prelude.{◌≤◌, ◌≢◌, false}
use mars_wrapper.Proxy.Leaks.{AllOwned, Owns}
use mars_wrapper.Session.Leaks.{run-AllOwned}
use mars_wrapper.Session.Drain.{ends_from, run-ends_from}
use mars_wrapper.Examples.{hi, echo, waiting_world, waiting_world-Inv, hi_waits}

abbrev pub session : List (Event ListBuffer)
session =
    sends hi 2 (some 7)
    ∷ asks 10000 empty_buffer
    ∷ responds 10000 echo
    ∷ ends 10000 0 (pos 0)
    ∷ ends 10000 0 (pos 0)
    ∷ []

pub session-AllSound : AllSound list_buffer session
unfolding list_buffer len_of little_endian
session-AllSound = omega arith

run_refines_model_example :
    (v : World) × (run list_buffer session initial ≡ some v)
    × Inv v
    × (view v ≡ model_run list_buffer session (view initial))
run_refines_model_example = run_refines_model list_buffer session session-AllSound

send_message-pending_example :
    (v : World) × (send_message hi 2 (some 7) initial ≡ some (pos 0, v))
    × Inv v
    × ((t : ℕ) → pending v t ≡ (if 10000 == t then some (some 7, take 2 hi) else pending initial t))
    × (v.log ≡ to_stn (start_task (request_task 10000)) ∷ [])
    × (v.message_id ≡ 10001)
    × SameListeners initial v
send_message-pending_example =
    send_message-pending initial-Inv hi 2 (some 7) (omega arith) (omega arith)

on_task_end_frees_example :
    (v : World) × (a : ℕ) × (on_task_end 10000 0 (pos 0) waiting_world ≡ some (pos 0, v))
    × Inv v
    × ((s : ℕ) → pending v s ≡ (if 10000 == s then none else pending waiting_world s))
    × (v.log ≡ on_success 7 ∷ waiting_world.log)
    × (v.message_id ≡ 10001)
    × SameListeners waiting_world v
    × Owns waiting_world 10000 a
    × ((p : ℕ) → Owns waiting_world 10000 p → (waiting_world.cells p ≢ none) × (v.cells p ≡ none))
    × ((p : ℕ) → (¬ Owns waiting_world 10000 p) → v.cells p ≡ waiting_world.cells p)
on_task_end_frees_example = on_task_end_frees waiting_world-Inv 10000 0 (pos 0) (some 7) hi hi_waits

req2buf-pending_example :
    (out : ListBuffer) × (req2buf list_buffer 10000 empty_buffer waiting_world
      ≡ some ((true, out), waiting_world))
    × (list_buffer.bytes out ≡ frame 10000 hi)
req2buf-pending_example =
    req2buf-pending list_buffer waiting_world-Inv 10000 (some 7) hi hi_waits empty_buffer
      empty_buffer-IsFresh

buf2resp-pending_example :
    (v : World) × (buf2resp list_buffer 10000 echo waiting_world ≡ some (pos 0, v))
    × Inv v
    × ((s : ℕ) → pending v s ≡ pending waiting_world s)
    × ((p : ℕ) → v.cells p ≡ waiting_world.cells p)
    × (v.log ≡ on_response 7 (body_of (list_buffer.bytes echo)) ∷ waiting_world.log)
    × (v.message_id ≡ 10001)
    × SameListeners waiting_world v
unfolding list_buffer len_of little_endian
buf2resp-pending_example =
    buf2resp-pending list_buffer waiting_world-Inv 10000 echo 7 hi hi_waits (omega arith)
      (omega arith)

next_number_is_free_example :
    (v : World) × (run list_buffer session initial ≡ some v)
    × (v.message_id ≡ 10001)
    × ((t : ℕ) → v.message_id ≤ t → pending v t ≡ none)
    × (v.message_id ≢ noop_task_id)
    × ((cmdid : ℕ) → longlink_ispush cmdid v.message_id ≡ false)
next_number_is_free_example = next_number_is_free list_buffer session session-AllSound (omega arith)

run-AllOwned_example :
    (v : World) × (run list_buffer session initial ≡ some v)
    × AllOwned v
    × ((t p : ℕ) → Owns v t p → pending v t ≢ none)
run-AllOwned_example = run-AllOwned list_buffer session session-AllSound (omega arith)

run-ends_from_example :
    (v : World) × (u : World) × (run list_buffer session initial ≡ some v)
    × (run list_buffer (ends_from list_buffer 10000 1 3 (negsuc 4)) v ≡ some u)
    × ((t : ℕ) → pending u t ≡ none)
    × ((p : ℕ) → u.cells p ≡ none)
run-ends_from_example =
    run-ends_from list_buffer 3 (negsuc 4) session session-AllSound (omega arith)
