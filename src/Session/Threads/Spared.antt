-- ===== src/Session/Threads/Spared.antt =====
-- What the callbacks of the mars library leave alone: the allocations of a call of `sendMessage` whose
-- context is not in the map yet.
use mars_wrapper.Prelude.{
  ℕ, suc, ◌≡◌, refl, sym, ap, ◌∙◌, ◌++◌, inl, inr, Option, none, some, arith, subst, eq_of_some,
  Option-cases,
}
use mars_wrapper.Prelude.Int.{ℤ}
use mars_wrapper.Host.{Host}
use mars_wrapper.Buffer.{AutoBuffer}
use mars_wrapper.Memory.{World, Pointer}
use mars_wrapper.Proxy.Owned.{Inv, Entry, pending}
use mars_wrapper.Proxy.Keep.{Entry-grown, at-Entry-grown}
use mars_wrapper.Proxy.Remove.{apart, without}
use mars_wrapper.Callback.TaskEnd.{
  on_task_end-none, on_task_end_lem, context_of_pending, told, told-Inv, end_calls,
}
use mars_wrapper.Callback.Status.{status_calls, report_connect_status_lem}
use mars_wrapper.Callback.Push.{on_push_all}
use mars_wrapper.Callback.Request.{req2buf_keeps}
use mars_wrapper.Callback.Response.{buf2resp-pending, buf2resp-silent}
use mars_wrapper.Plus.{register_push_listener, register_channel_listener}
use mars_wrapper.Session.{
  Event, sends, registers_push, registers_channel, asks, responds, pushes, ends, reports, step,
  Sound, state,
}
use mars_wrapper.Callback.{on_task_end, buf2resp}
use mars_wrapper.Session.Threads.{Plan, Comes}

module _ ⦃h : Host⦄ where
  -- The three addresses of a request hold what they held.
  abbrev pub Kept : World → World → ℕ → Type 0
  Kept w v a =
      (v.cells a ≡ w.cells a)
      × (v.cells (suc a) ≡ w.cells (suc a))
      × (v.cells (suc (suc a)) ≡ w.cells (suc (suc a)))

  abbrev pub Spares : World → World → Type 0
  Spares w v = (t : ℕ) (c : Pointer) (f : Entry w t c) → w.contexts t ≡ none → Kept w v f.at

  all_cells : (w v : World) → ((p : ℕ) → v.cells p ≡ w.cells p) → Spares w v
  all_cells w v same t c f free = (same f.at, same (suc f.at), same (suc (suc f.at)))

  module _ {Buffer : Type 0} (ops : AutoBuffer Buffer) {w : World} (inv : Inv w) where
    -- A call that is known to leave one world leaves no other.
    known : {o : Option World} {u v : World} → o ≡ some u → o ≡ some v → Spares w u → Spares w v
    known is run spares = subst (Spares w) (eq_of_some (sym is ∙ run)) spares

    unchanged : {o : Option World} {v : World} → o ≡ some w → o ≡ some v → Spares w v
    unchanged is run = known is run (all_cells w w (λ p. refl))

    -- The end of a task frees its own allocations.
    ends-Spares :
        (t error_type : ℕ) (error_code : ℤ) {v : World}
        → state (on_task_end t error_type error_code w) ≡ some v
        → Spares w v
    ends-Spares t error_type error_code run = elim (Option-cases (pending w t)) [
      | inl missing ↦
          unchanged (ap state (on_task_end-none inv t error_type error_code missing)) run
      | inr ((callback, body), waits) ↦
          let (ctx, held, _, _) = context_of_pending inv waits in
          let calls = end_calls ((inv.owned t ctx held).callback) error_type error_code in
          known (ap state (on_task_end_lem inv t error_type error_code ctx held)) run (λ s c f free.
            (let grown = Entry-grown (told w calls) inv (λ p _. refl) f in
              subst (Kept w (without (told-Inv inv calls) held))
                (at-Entry-grown (told w calls) inv (λ p _. refl) f)
                (apart (told-Inv inv calls) held (λ same. ground (arith, held, free, same)) grown)))
    ]

    responds-Spares :
        (t : ℕ) (packet : Buffer) {v : World}
        → Sound ops (responds t packet)
        → state (buf2resp ops t packet w) ≡ some v
        → Spares w v
    responds-Spares t packet (inside, small) run = elim (Option-cases (pending w t)) [
      | inl missing ↦ unchanged (ap state (buf2resp-silent ops inv t packet (inl missing))) run
      | inr ((none, body), waits) ↦
          unchanged (ap state (buf2resp-silent ops inv t packet (inr (body, waits)))) run
      | inr ((some callback, body), waits) ↦
          let (u, ran, _, _, cells, _, _, _) =
            buf2resp-pending ops inv t packet callback body waits inside small in
          known (ap state ran) run (all_cells w u cells)
    ]

    pub step-Spares :
        (e : Event Buffer) (m : Plan) {v : World}
        → Comes ops e m
        → Sound ops e
        → step ops e w ≡ some v
        → Spares w v
    unfolding step register_push_listener register_channel_listener
    step-Spares (sends _ _ _) m at sound run = absurd at
    step-Spares (registers_push l) m at sound run =
        known refl run (all_cells w (record w { push_listener = l }) (λ p. refl))
    step-Spares (registers_channel l) m at sound run =
        known refl run (all_cells w (record w { channel_listener = l }) (λ p. refl))
    step-Spares (asks t out) m at sound run =
        unchanged (ap state ((req2buf_keeps ops inv t out).1)) run
    step-Spares (responds t packet) m at sound run = responds-Spares t packet sound run
    step-Spares (pushes channel_id cmdid t body) m at small run =
        let (u, ran, _, _, cells, _, _, _) = on_push_all ops inv channel_id cmdid t body small in
        known (ap state ran) run (all_cells w u cells)
    step-Spares (ends t error_type error_code) m at sound run =
        ends-Spares t error_type error_code run
    step-Spares (reports status link) m at sound run =
        known (ap state (report_connect_status_lem w status link)) run (
          all_cells w (record w { log = status_calls w.channel_listener link ++ w.log })
            (λ p. refl))
