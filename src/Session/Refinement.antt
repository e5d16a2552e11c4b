-- ===== src/Session/Refinement.antt =====
-- The wrapper refines its model: over whole sessions nothing faults, and all that a client can see
-- is as the model says.
use mars_wrapper.Prelude.{
  ℕ, ◌≡◌, ◌⊎◌, refl, sym, ap, ◌∙◌, inl, inr, List, [], ◌∷◌, ◌++◌, none, some, arith, ℕ_discrete,
  Option-cases,
}
use mathlib.Core.Option
use mars_wrapper.Prelude.Int.{ℤ}
use mars_wrapper.Host.{Host}
use mars_wrapper.Buffer.{AutoBuffer}
use mars_wrapper.Memory.{World, Pointer, Call, initial, update}
use mars_wrapper.Proxy.Owned.{Inv, pending, initial-Inv}
use mars_wrapper.Message.Header.{body_of}
use mars_wrapper.Callback.TaskEnd.{on_task_end-none, on_task_end-pending}
use mars_wrapper.Callback.Status.{status_calls, report_connect_status_lem}
use mars_wrapper.Callback.Push.{on_push_all}
use mars_wrapper.Callback.Request.{req2buf_keeps}
use mars_wrapper.Proxy.Keep.{Entry-grown, pending-grown}
use mars_wrapper.Callback.Response.{buf2resp-pending, buf2resp-silent}
use mars_wrapper.Plus.{register_push_listener, register_channel_listener}
use mars_wrapper.Plus.Pending.{send_message-pending}
use mars_wrapper.Session.{
  Event, sends, registers_push, registers_channel, asks, responds, pushes, ends, reports, Model,
  view, step, run, model_step, model_run, Sound, AllSound, response_calls, ended, state,
}

-- Models are equal field by field.
pub model_eq :
    {a b : Model}
    → a.next_id ≡ b.next_id
    → ((t : ℕ) → a.waiting t ≡ b.waiting t)
    → a.push_to ≡ b.push_to
    → a.status_to ≡ b.status_to
    → a.calls ≡ b.calls
    → a ≡ b
model_eq n w p s c =
    λ i. record { next_id = n i; waiting = λ t. w t i; push_to = p i; status_to = s i; calls = c i }

module _ ⦃h : Host⦄ {Buffer : Type 0} (ops : AutoBuffer Buffer) where
  abbrev Refines : World → Event Buffer → Type 0
  Refines w e = (v : World) × (step ops e w ≡ some v) × Inv v × (view v ≡ model_step ops e (view w))

  module _ {w : World} (inv : Inv w) where
    sends-Refines :
        (body : List ℕ) (size : ℕ) (callback : Pointer)
        → Sound ops (sends body size callback)
        → Refines w (sends body size callback)
    unfolding step model_step
    sends-Refines body size callback (small, readable) =
        let (v, run, vinv, waits, log, id, (pl, cl)) =
          send_message-pending inv body size callback small readable in
        (v, ap state run, vinv, model_eq id waits pl cl log)

    -- To forget a task that does not wait changes nothing.
    gone : (t s : ℕ) → pending w t ≡ none → pending w s ≡ update (pending w) t none s
    gone t s missing = elim (ℕ_discrete t s) [
      | yes same ↦ ap (pending w) (sym same) ∙ missing ∙ ground arith
      | no other ↦ ground arith
    ]

    ends-Refines : (t error_type : ℕ) (error_code : ℤ) → Refines w (ends t error_type error_code)
    unfolding step model_step
    ends-Refines t error_type error_code = elim (Option-cases (pending w t)) [
      | inl missing ↦ (
        w,
        ap state (on_task_end-none inv t error_type error_code missing),
        inv,
        model_eq refl (λ s. gone t s missing) refl refl
            (ap (λ r. ended r error_type error_code ++ w.log) (sym missing)),
      )
      | inr ((callback, body), waits) ↦
          let (v, run, vinv, rest, log, id, (pl, cl)) =
            on_task_end-pending inv t error_type error_code callback body waits in
          (
            v,
            ap state run,
            vinv,
            model_eq id rest pl cl
                (log ∙ ap (λ r. ended r error_type error_code ++ w.log) (sym waits)),
          )
    ]

    responds-Refines :
        (t : ℕ) (packet : Buffer) → Sound ops (responds t packet) → Refines w (responds t packet)
    unfolding step model_step
    responds-Refines t packet (inside, small) = elim (Option-cases (pending w t)) [
      | inl missing ↦
          silent (inl missing)
            (ap (λ r. response_calls r (body_of (ops.bytes packet)) ++ w.log) (sym missing))
      | inr ((none, body), waits) ↦
          silent (inr (body, waits))
            (ap (λ r. response_calls r (body_of (ops.bytes packet)) ++ w.log) (sym waits))
      | inr ((some callback, body), waits) ↦
          let (v, run, vinv, same, _, log, id, (pl, cl)) =
            buf2resp-pending ops inv t packet callback body waits inside small in
          (
            v,
            ap state run,
            vinv,
            model_eq id same pl cl (
                log ∙ ap (λ r. response_calls r (body_of (ops.bytes packet)) ++ w.log) (sym waits)),
          )
    ]
      where
        silent :
            (pending w t ≡ none) ⊎ ((body : List ℕ) × (pending w t ≡ some (none, body)))
            → w.log ≡ response_calls (pending w t) (body_of (ops.bytes packet)) ++ w.log
            → Refines w (responds t packet)
        silent why quiet = (
          w,
          ap state (buf2resp-silent ops inv t packet why),
          inv,
          model_eq refl (λ s. refl) refl refl quiet,
        )

    pushes-Refines :
        (channel_id cmdid taskid : ℕ) (body : Buffer)
        → Sound ops (pushes channel_id cmdid taskid body)
        → Refines w (pushes channel_id cmdid taskid body)
    unfolding step model_step
    pushes-Refines channel_id cmdid taskid body small =
        let (v, run, vinv, same, _, id, log, (pl, cl)) =
          on_push_all ops inv channel_id cmdid taskid body small in
        (v, ap state run, vinv, model_eq id same pl cl log)

    asks-Refines : (t : ℕ) (out : Buffer) → Refines w (asks t out)
    unfolding step model_step
    asks-Refines t out = let (r, run) = req2buf_keeps ops inv t out in (w, ap state run, inv, refl)

    -- A change of the listeners, or a call, that leaves numbers, memory and tasks alone.
    module _ (push_to status_to : Pointer) (calls : List Call) where
      abbrev retold : World
      retold = record w { push_listener = push_to; channel_listener = status_to; log = calls }

      retold-Inv : Inv retold
      retold-Inv = record {
        id_fits = inv.id_fits;
        unlocked = inv.unlocked;
        fresh = inv.fresh;
        owned = λ s c there. Entry-grown retold inv (λ p _. refl) (inv.owned s c there);
      }

      pending-retold : (s : ℕ) → pending retold s ≡ pending w s
      pending-retold s = pending-grown retold inv (λ p _. refl) s refl

    registers_push-Refines : (listener : Pointer) → Refines w (registers_push listener)
    unfolding step model_step register_push_listener
    registers_push-Refines listener = (
      retold listener w.channel_listener w.log,
      refl,
      retold-Inv listener w.channel_listener w.log,
      model_eq refl (pending-retold listener w.channel_listener w.log) refl refl refl,
    )

    registers_channel-Refines : (listener : Pointer) → Refines w (registers_channel listener)
    unfolding step model_step register_channel_listener
    registers_channel-Refines listener = (
      retold w.push_listener listener w.log,
      refl,
      retold-Inv w.push_listener listener w.log,
      model_eq refl (pending-retold w.push_listener listener w.log) refl refl refl,
    )

    reports-Refines : (status longlink_status : ℤ) → Refines w (reports status longlink_status)
    unfolding step model_step
    reports-Refines status longlink_status = (
      retold w.push_listener w.channel_listener calls,
      ap state (report_connect_status_lem w status longlink_status),
      retold-Inv w.push_listener w.channel_listener calls,
      model_eq refl (pending-retold w.push_listener w.channel_listener calls) refl refl refl,
    )
      where
        calls : List Call
        calls = status_calls w.channel_listener longlink_status ++ w.log

  -- One call, of any kind: it does not fault, the memory stays well formed, and the view changes as
  -- the model says.
  pub step-Refines :
      {w : World}
      → Inv w
      → (e : Event Buffer) → Sound ops e
      → (v : World) × (step ops e w ≡ some v) × Inv v × (view v ≡ model_step ops e (view w))
  step-Refines inv (sends body size callback) sound = sends-Refines inv body size callback sound
  step-Refines inv (registers_push listener) sound = registers_push-Refines inv listener
  step-Refines inv (registers_channel listener) sound = registers_channel-Refines inv listener
  step-Refines inv (asks t out) sound = asks-Refines inv t out
  step-Refines inv (responds t packet) sound = responds-Refines inv t packet sound
  step-Refines inv (pushes channel_id cmdid taskid body) sound =
      pushes-Refines inv channel_id cmdid taskid body sound
  step-Refines inv (ends t error_type error_code) sound = ends-Refines inv t error_type error_code
  step-Refines inv (reports status longlink_status) sound =
      reports-Refines inv status longlink_status

  pub run-refines :
      (es : List (Event Buffer)) {w : World}
      → Inv w
      → AllSound ops es
      → (v : World) × (run ops es w ≡ some v) × Inv v × (view v ≡ model_run ops es (view w))
  unfolding run model_run Option.bind
  run-refines [] {w} inv sound = (w, refl, inv, refl)
  run-refines (e ∷ es) {w} inv (sound, rest) =
      let (u, first, uinv, same) = step-Refines inv e sound in
      let (v, later, vinv, view_v) = run-refines es uinv rest in
      (v, rw first later, vinv, view_v ∙ ap (model_run ops es) same)

  -- From the program's start, a session of calls, of any length, whose sizes and response headers are
  -- sound (`AllSound`) never faults: no block or object is freed twice, read after it was freed, or read
  -- beyond its end. The memory is well formed at its end, and the next number, the requests that wait,
  -- the listeners and all the calls made are those of the model.
  pub run_refines_model :
      (es : List (Event Buffer))
      → AllSound ops es
      → (v : World) × (run ops es initial ≡ some v)
        × Inv v
        × (view v ≡ model_run ops es (view initial))
  run_refines_model es sound = run-refines es initial-Inv sound
