-- ===== src/Session/Leaks.antt =====
-- No memory is left over: every allocation belongs to a request that waits, and after the end of all
-- of them there is none.
use mars_wrapper.Prelude.{
  ℕ, ◌+◌, ◌^◌, ◌<◌, ◌≡◌, ◌≢◌, refl, sym, ap, subst, ◌∙◌, inl, inr, List, [], ◌∷◌, ◌++◌, none, some,
  arith, dec_lt, Option-cases, eq_of_some,
}
use mathlib.Core.Option
use mars_wrapper.Prelude.Int.{ℤ}
use mars_wrapper.Host.{Host}
use mars_wrapper.Buffer.{AutoBuffer}
use mars_wrapper.Memory.{World, Pointer, initial, on_response}
use mars_wrapper.Message.Header.{body_of}
use mars_wrapper.Proxy.Owned.{Inv, initial-Inv, pending, pending-none}
use mars_wrapper.Proxy.Leaks.{Owns, AllOwned, initial-AllOwned, AllOwned-kept, AllOwned-without}
use mars_wrapper.Callback.Status.{status_calls, report_connect_status_lem}
use mars_wrapper.Callback.Push.{pushed, on_push_bytes}
use mars_wrapper.Callback.Request.{req2buf_keeps}
use mars_wrapper.Callback.Response.{answered, reaches, respond_lem, buf2resp-silent}
use mars_wrapper.Callback.TaskEnd.{
  end_calls, told-Inv, no_context, after_end, on_task_end_lem, on_task_end-none,
}
use mars_wrapper.Plus.{register_push_listener, register_channel_listener}
use mars_wrapper.Plus.Send.{sent, send_message_lem}
use mars_wrapper.Session.{
  Event, sends, registers_push, registers_channel, asks, responds, pushes, ends, reports, view,
  step, run, model_step, model_run, Sound, AllSound, state,
}
use mars_wrapper.Session.Refinement.{step-Refines}
use mars_wrapper.Session.Numbers.{Free, used, all_used, step_counts, nothing_waits}

module _ ⦃h : Host⦄ {Buffer : Type 0} (ops : AutoBuffer Buffer) {w : World} (inv : Inv w)
    (all : AllOwned w) where
  -- A request under a number that nothing waits under.
  AllOwned-sent :
      (body : List ℕ) (size : ℕ) (callback : Pointer)
      → w.contexts w.message_id ≡ none
      → AllOwned (sent w body size callback)
  AllOwned-sent body size callback free p o held = elim (dec_lt p w.next) [
    | yes old ↦
        let (t, (a, there, at)) = all p o (ground (arith, held)) in
        (t, (a, ground (arith, there, free), at))
    | no new ↦ (w.message_id, (w.next, ground arith, ground (arith, held, inv.fresh p)))
  ]

  Clean : Event Buffer → Type 0
  Clean e = (v : World) × (step ops e w ≡ some v) × AllOwned v

  sends-Clean :
      (body : List ℕ) (size : ℕ) (callback : Pointer)
      → Sound ops (sends body size callback)
      → w.contexts w.message_id ≡ none
      → Clean (sends body size callback)
  unfolding step Clean
  sends-Clean body size callback (small, readable) free = (
    sent w body size callback,
    ap state (send_message_lem w body size callback small readable inv.id_fits inv.unlocked),
    AllOwned-sent body size callback free,
  )

  ends-Clean : (t error_type : ℕ) (error_code : ℤ) → Clean (ends t error_type error_code)
  unfolding step Clean
  ends-Clean t error_type error_code = elim (Option-cases (w.contexts t)) [
    | inl missing ↦
        (w, ap state (on_task_end-none inv t error_type error_code (pending-none w t missing)), all)
    | inr (ctx, held) ↦ (
      after_end inv t error_type error_code ctx held,
      ap state (on_task_end_lem inv t error_type error_code ctx held),
      AllOwned-without
          (told-Inv inv (end_calls ((inv.owned t ctx held).callback) error_type error_code)) held
          all,
    )
  ]

  pushes-Clean :
      (channel_id cmdid taskid : ℕ) (body : Buffer)
      → Sound ops (pushes channel_id cmdid taskid body)
      → Clean (pushes channel_id cmdid taskid body)
  unfolding step Clean
  pushes-Clean channel_id cmdid taskid body small = (
    pushed w (ops.bytes body),
    ap state (on_push_bytes w (ops.bytes body) small ops body channel_id cmdid taskid refl),
    AllOwned-kept w (pushed w (ops.bytes body)) (λ p. ground (arith, inv.fresh w.next)) (λ t. refl)
        all,
  )

  asks-Clean : (t : ℕ) (out : Buffer) → Clean (asks t out)
  unfolding step Clean
  asks-Clean t out = let (r, ran) = req2buf_keeps ops inv t out in (w, ap state ran, all)

  responds-Clean :
      (t : ℕ) (packet : Buffer) → Sound ops (responds t packet) → Clean (responds t packet)
  unfolding step Clean
  responds-Clean t packet (inside, small) = elim (Option-cases (pending w t)) [
    | inl missing ↦ (w, ap state (buf2resp-silent ops inv t packet (inl missing)), all)
    | inr ((none, body), waits) ↦
        (w, ap state (buf2resp-silent ops inv t packet (inr (body, waits))), all)
    | inr ((some callback, body), waits) ↦
        let calls = on_response callback (body_of (ops.bytes packet)) ∷ [] in
        (
          answered w calls,
          ap state (
              reaches ops inv t packet (some callback) body waits
              ∙ respond_lem w callback (ops.bytes packet) small (omega arith) inside),
          AllOwned-kept w (answered w calls) (λ p. ground (arith, inv.fresh w.next)) (λ s. refl)
              all,
        )
  ]

  step-Clean :
      (e : Event Buffer)
      → Sound ops e
      → w.message_id + used e < 2 ^ 32
      → Free (view w)
      → (v : World) × (step ops e w ≡ some v) × AllOwned v
  unfolding step Clean register_push_listener register_channel_listener
  step-Clean (sends body size callback) sound fits free =
      sends-Clean body size callback sound (no_context inv (free w.message_id (omega arith)))
  step-Clean (registers_push listener) sound fits free =
      (record w { push_listener = listener }, refl, all)
  step-Clean (registers_channel listener) sound fits free =
      (record w { channel_listener = listener }, refl, all)
  step-Clean (asks t out) sound fits free = asks-Clean t out
  step-Clean (responds t packet) sound fits free = responds-Clean t packet sound
  step-Clean (pushes channel_id cmdid taskid body) sound fits free =
      pushes-Clean channel_id cmdid taskid body sound
  step-Clean (ends t error_type error_code) sound fits free = ends-Clean t error_type error_code
  step-Clean (reports status longlink_status) sound fits free = (
    record w { log = status_calls w.channel_listener longlink_status ++ w.log },
    ap state (report_connect_status_lem w status longlink_status),
    all,
  )

module _ ⦃h : Host⦄ {Buffer : Type 0} (ops : AutoBuffer Buffer) where
  pub clean_run :
      (es : List (Event Buffer)) {w : World}
      → Inv w
      → AllOwned w
      → AllSound ops es
      → w.message_id + all_used es < 2 ^ 32
      → Free (view w)
      → (v : World) × (run ops es w ≡ some v)
        × Inv v
        × AllOwned v
        × (view v ≡ model_run ops es (view w))
  unfolding run model_run Option.bind
  clean_run [] {w} inv all sound fits free = (w, refl, inv, all, refl)
  clean_run (e ∷ es) {w} inv all (sound, rest) fits free =
      let (u, first, clean) = step-Clean ops inv all e sound (omega arith) free in
      let (u', first', uinv', same') = step-Refines ops inv e sound in
      let is_u : u' ≡ u = eq_of_some (sym first' ∙ first) in
      let same : view u ≡ model_step ops e (view w) = ap view (sym is_u) ∙ same' in
      let (next, free') = step_counts ops e (view w) (omega arith) free in
      let id : u.message_id ≡ w.message_id + used e = ap (λ m. m.next_id) same ∙ next in
      let (v, later, vinv, vall, view_v) =
        clean_run es {w = u} (subst Inv is_u uinv') clean rest (omega (arith, id))
          (subst Free (sym same) free') in
      (
        v,
        ap (λ o. Option.bind o (run ops es)) first ∙ later,
        vinv,
        vall,
        view_v ∙ ap (model_run ops es) same,
      )

  -- From the program's start, a session whose sizes and response headers are sound (`AllSound`), and
  -- that uses fewer than 2 ^ 32 - 10000 numbers, does not fault, and each address that is allocated
  -- at its end is the message, the block or the context of a request that waits.
  pub run-AllOwned :
      (es : List (Event Buffer))
      → AllSound ops es
      → 10000 + all_used es < 2 ^ 32
      → (v : World) × (run ops es initial ≡ some v)
        × AllOwned v
        × ((t p : ℕ) → Owns v t p → pending v t ≢ none)
  run-AllOwned es sound few =
      let (v, ran, vinv, vall, _) =
        clean_run es initial-Inv initial-AllOwned sound few (nothing_waits ops) in
      (v, ran, vall, λ t p (a, there, _) missing. absurd (cc (there, no_context vinv missing)))
