-- ===== src/Session/Traffic.antt =====
-- What the mars library is asked for, from `init` on.
use mars_wrapper.Prelude.{
  ℕ, ◌+◌, ◌%◌, ◌^◌, ◌≡◌, refl, ap, ◌∙◌, List, [], ◌∷◌, ◌++◌, Option, none, some, true, arith,
  Bool-cases, inl, inr, ◌==◌,
}
use mars_wrapper.Prelude.Int.{ℤ, pos}
use mars_wrapper.Host.{Host}
use mars_wrapper.Buffer.{AutoBuffer}
use mars_wrapper.Mars.{
  start_task, set_longlink_svr_addr, set_backup_ips, set_callback, makesure_longlink_connected,
  on_create, on_foreground, appender_set_console_log, appender_open,
}
use mars_wrapper.Xlog.{appender_async, level_verbose}
use mars_wrapper.Memory.{
  World, Pointer, Call, initial, on_response, on_error, on_success, on_push, on_channel_status,
  to_stn, to_base, to_appender, set_level, set_app_callback,
}
use mars_wrapper.Proxy.Owned.{Inv, Request, initial-Inv}
use mars_wrapper.Callback.Push.{push_calls}
use mars_wrapper.Callback.Status.{status_calls}
use mars_wrapper.Task.{err_code, ect_ok}
use mars_wrapper.Plus.{MarsConfig, init, request_task}
use mars_wrapper.Session.{
  Event, sends, registers_push, registers_channel, asks, responds, pushes, ends, reports, Model,
  view, run, model_step, model_run, AllSound, response_calls, ended,
}
use mars_wrapper.Session.Refinement.{run-refines}

-- The calls of the library among all calls; the others are those of listeners.
abbrev pub to_library : List Call → List Call
to_library [] = []
to_library (on_response _ _ ∷ calls) = to_library calls
to_library (on_error _ _ _ ∷ calls) = to_library calls
to_library (on_success _ ∷ calls) = to_library calls
to_library (on_push _ _ ∷ calls) = to_library calls
to_library (on_channel_status _ _ ∷ calls) = to_library calls
to_library (to_stn c ∷ calls) = to_stn c ∷ to_library calls
to_library (to_base c ∷ calls) = to_base c ∷ to_library calls
to_library (to_appender c ∷ calls) = to_appender c ∷ to_library calls
to_library (set_level l ∷ calls) = set_level l ∷ to_library calls
to_library (set_app_callback ∷ calls) = set_app_callback ∷ to_library calls

-- The calls of `init`, the newest first.
abbrev pub init_calls : MarsConfig → List Call
init_calls config =
    to_stn makesure_longlink_connected
    ∷ to_base (on_foreground true)
    ∷ to_base on_create
    ∷ set_app_callback
    ∷ to_stn set_callback
    ∷ to_stn (set_backup_ips config.host (config.backup_ip ∷ []))
    ∷ to_stn (set_longlink_svr_addr config.host ((config.port % 2 ^ 16) ∷ []) "")
    ∷ set_level level_verbose
    ∷ to_appender (appender_open appender_async "./log" "marPlus" "")
    ∷ to_appender (appender_set_console_log true)
    ∷ []

-- The requests of a session in which the next number is `n`, after the calls made before, the newest
-- first: one start of a task for each request, and none for anything else. A push takes a number too.
abbrev pub started :
    ⦃h : Host⦄ → {Buffer : Type 0} → ℕ → List (Event Buffer) → List Call → List Call
started n [] before = before
started n (sends body size callback ∷ es) before =
    started ((n + 1) % 2 ^ 32) es (to_stn (start_task (request_task n)) ∷ before)
started n (pushes channel_id cmdid taskid body ∷ es) before = started ((n + 1) % 2 ^ 32) es before
started n (registers_push listener ∷ es) before = started n es before
started n (registers_channel listener ∷ es) before = started n es before
started n (asks taskid out ∷ es) before = started n es before
started n (responds taskid inbuffer ∷ es) before = started n es before
started n (ends taskid error_type error_code ∷ es) before = started n es before
started n (reports status longlink_status ∷ es) before = started n es before

-- Calls of listeners alone.
pub responses_hidden :
    (r : Option Request) (body : List ℕ) (calls : List Call)
    → to_library (response_calls r body ++ calls) ≡ to_library calls
responses_hidden none body calls = refl
responses_hidden (some (none, sent)) body calls = refl
responses_hidden (some (some callback, sent)) body calls = refl

pub pushes_hidden :
    (listener : Pointer) (bytes : List ℕ) (calls : List Call)
    → to_library (push_calls listener bytes ++ calls) ≡ to_library calls
pushes_hidden none bytes calls = refl
pushes_hidden (some listener) bytes calls = refl

pub status_hidden :
    (listener : Pointer) (status : ℤ) (calls : List Call)
    → to_library (status_calls listener status ++ calls) ≡ to_library calls
status_hidden none status calls = refl
status_hidden (some listener) status calls = refl

pub ends_hidden :
    (r : Option Request) (error_type : ℕ) (error_code : ℤ) (calls : List Call)
    → to_library (ended r error_type error_code ++ calls) ≡ to_library calls
ends_hidden none error_type error_code calls = refl
ends_hidden (some (none, sent)) error_type error_code calls = refl
ends_hidden (some (some callback, sent)) error_type error_code calls =
    elim (Bool-cases (error_type == err_code ect_ok)) [ inl e ↦ rw e refl | inr e ↦ rw e refl ]

module _ ⦃h : Host⦄ {Buffer : Type 0} (ops : AutoBuffer Buffer) where
  asked :
      (es : List (Event Buffer)) (m : Model)
      → to_library (model_run ops es m).calls ≡ started m.next_id es (to_library m.calls)
  unfolding model_run model_step
  asked [] m = refl
  asked (sends body size callback ∷ es) m = asked es (model_step ops (sends body size callback) m)
  asked (pushes channel_id cmdid taskid body ∷ es) m =
      asked es (model_step ops (pushes channel_id cmdid taskid body) m)
      ∙ ap (started ((m.next_id + 1) % 2 ^ 32) es)
          (pushes_hidden m.push_to (ops.bytes body) m.calls)
  asked (registers_push listener ∷ es) m = asked es (model_step ops (registers_push listener) m)
  asked (registers_channel listener ∷ es) m =
      asked es (model_step ops (registers_channel listener) m)
  asked (asks taskid out ∷ es) m = asked es m
  asked (responds taskid inbuffer ∷ es) m =
      asked es (model_step ops (responds taskid inbuffer) m)
      ∙ ap (started m.next_id es) (responses_hidden (m.waiting taskid) _ m.calls)
  asked (ends taskid error_type error_code ∷ es) m =
      asked es (model_step ops (ends taskid error_type error_code) m)
      ∙ ap (started m.next_id es) (ends_hidden (m.waiting taskid) error_type error_code m.calls)
  asked (reports status longlink_status ∷ es) m =
      asked es (model_step ops (reports status longlink_status) m)
      ∙ ap (started m.next_id es) (status_hidden m.status_to longlink_status m.calls)

  -- The world behind `init`.
  opened : MarsConfig → World
  opened config = record initial { log = init_calls config }

  init_lem : (config : MarsConfig) → init config initial ≡ some (pos 0, opened config)
  unfolding init opened
  init_lem config = refl

  opened-Inv : (config : MarsConfig) → Inv (opened config)
  unfolding opened
  opened-Inv config = record {
    id_fits = initial-Inv.id_fits;
    unlocked = refl;
    fresh = λ p above. refl;
    owned = λ t ctx held. absurd (ground (arith, held));
  }

  -- `init` from the program's start, and then a session of any length whose sizes and response headers
  -- are sound (`AllSound`), do not fault, and the mars library is asked for exactly this: what `init`
  -- asks for, in its order, and then the start of one task for each request, with the numbers from 10000 on
  -- modulo 2 ^ 32, of which each push takes one too. No task is ever stopped, and none started again.
  pub run_traffic :
      (config : MarsConfig) (es : List (Event Buffer))
      → AllSound ops es
      → (w : World) × (v : World) × (init config initial ≡ some (pos 0, w))
        × (run ops es w ≡ some v)
        × (to_library v.log ≡ started 10000 es (init_calls config))
  unfolding opened
  run_traffic config es sound =
      let (v, ran, _, same) = run-refines ops es (opened-Inv config) sound in
      (
        opened config,
        v,
        init_lem config,
        ran,
        ap (λ m. to_library m.calls) same ∙ asked es (view (opened config)),
      )
