-- ===== src/Callback/TaskEnd.antt =====
-- `OnTaskEnd`: a request is answered once, and then it is gone.
use mars_wrapper.Prelude.{
  ℕ, suc, ◌<◌, ◌^◌, ◌≡◌, refl, ap, ◌∙◌, inl, inr, List, [], ◌∷◌, ◌++◌, none, some, Option-cases,
  Bool-cases, if◌then◌else◌, ◌==◌,
}
use mars_wrapper.Prelude.Int.{ℤ, pos}
use mars_wrapper.Host.{Host}
use mars_wrapper.Memory.{
  World, SameListeners, Pointer, Call, on_success, on_error, read_context, >>=-some, >>-some,
}
use mars_wrapper.Memory.Access.{read_context_lem}
use mars_wrapper.Proxy.{get_task_context, remove_task_context}
use mars_wrapper.Proxy.Owned.{Inv, pending, pending-none, pending-Entry}
use mars_wrapper.Proxy.Keep.{Entry-grown, pending-grown}
use mars_wrapper.Proxy.Remove.{
  get_task_context_lem, remove_task_context_lem, without, without-Inv, pending-without,
}
use mars_wrapper.Task.{ect_ok, err_code}
use mars_wrapper.Callback.{on_task_end, report_end, end_found}

-- What the listener of a request hears at its end: one call, or none if there is no listener.
abbrev pub end_calls : Pointer → ℕ → ℤ → List Call
end_calls none error_type error_code = []
end_calls (some callback) error_type error_code =
    (if error_type == err_code ect_ok
      then on_success callback
      else on_error callback error_code "request failed.")
    ∷ []

abbrev pub told : World → List Call → World
told w calls = record w { log = calls ++ w.log }

report_end_lem :
    (w : World) (callback : Pointer) (error_type : ℕ) (error_code : ℤ)
    → report_end callback error_type error_code w
      ≡ some (tt, told w (end_calls callback error_type error_code))
unfolding report_end
report_end_lem w none error_type error_code = refl
report_end_lem w (some callback) error_type error_code =
    elim (Bool-cases (error_type == err_code ect_ok)) [ inl e ↦ rw e | inr e ↦ rw e ]

module _ ⦃h : Host⦄ {w : World} (inv : Inv w) where
  pub told-Inv : (calls : List Call) → Inv (told w calls)
  told-Inv calls = record {
    id_fits = inv.id_fits;
    unlocked = inv.unlocked;
    fresh = inv.fresh;
    owned = λ s c there. Entry-grown (told w calls) inv (λ p _. refl) (inv.owned s c there);
  }

  pub pending-told : (calls : List Call) (s : ℕ) → pending (told w calls) s ≡ pending w s
  pending-told calls s = pending-grown (told w calls) inv (λ p _. refl) s refl

  -- The view knows of a task exactly if the map has an entry for it.
  pub context_of_pending :
      {t : ℕ} {callback : Pointer} {body : List ℕ}
      → pending w t ≡ some (callback, body)
      → (ctx : Pointer) × (held : w.contexts t ≡ some ctx) × ((inv.owned t ctx held).callback
          ≡ callback)
        × ((inv.owned t ctx held).body ≡ body)
  context_of_pending {t} waits = elim (Option-cases (w.contexts t)) [
    | inl missing ↦ absurd (cc (waits, pending-none w t missing))
    | inr (ctx, held) ↦
        let same = pending-Entry held (inv.owned t ctx held) in
        (ctx, held, cc (waits, same), cc (waits, same))
  ]

  pub id_of_pending :
      {t : ℕ} {callback : Pointer} {body : List ℕ}
      → pending w t ≡ some (callback, body)
      → t < 2 ^ 32
  id_of_pending {t} waits =
      let (ctx, held, _, _) = context_of_pending waits in (inv.owned t ctx held).id_fits

  pub no_context : {t : ℕ} → pending w t ≡ none → w.contexts t ≡ none
  no_context {t} missing = elim (Option-cases (w.contexts t)) [
    | inl gone ↦ gone
    | inr (ctx, held) ↦ absurd (cc (missing, pending-Entry held (inv.owned t ctx held)))
  ]

  module _ (t error_type : ℕ) (error_code : ℤ) where
    -- A number that nothing waits under: nothing happens.
    pub on_task_end-none :
        pending w t ≡ none → on_task_end t error_type error_code w ≡ some (pos 0, w)
    unfolding on_task_end get_task_context
    on_task_end-none missing = rw (no_context missing)

    -- The world after the end of a task that waits.
    abbrev pub after_end : (ctx : Pointer) → w.contexts t ≡ some ctx → World
    after_end ctx held =
        let calls = end_calls ((inv.owned t ctx held).callback) error_type error_code in
        without (told-Inv calls) held

    pub on_task_end_lem :
        (ctx : Pointer) (held : w.contexts t ≡ some ctx)
        → on_task_end t error_type error_code w ≡ some (pos 0, after_end ctx held)
    unfolding on_task_end
    on_task_end_lem ctx held =
        let e = inv.owned t ctx held in
        let calls = end_calls e.callback error_type error_code in
        >>=-some (get_task_context t) (λ c. end_found t c error_type error_code)
          (get_task_context_lem held e)
        ∙ >>=-some (read_context (some (suc (suc e.at)))) _
            (read_context_lem w (suc (suc e.at)) _ e.context_cell)
        ∙ >>-some (report_end e.callback error_type error_code) _
            (report_end_lem w e.callback error_type error_code)
        ∙ >>-some (remove_task_context t) _
            (remove_task_context_lem held ((told-Inv calls).owned t ctx held) inv.unlocked)

    ends :
        (ctx : Pointer) (held : w.contexts t ≡ some ctx)
        → let e = inv.owned t ctx held in
          let calls = end_calls e.callback error_type error_code in
          (v : World) × (on_task_end t error_type error_code w ≡ some (pos 0, v))
          × Inv v
          × ((s : ℕ) → pending v s ≡ (if t == s then none else pending w s))
          × (v.log ≡ calls ++ w.log)
          × (v.message_id ≡ w.message_id)
          × SameListeners w v
    ends ctx held =
        let e = inv.owned t ctx held in
        let calls = end_calls e.callback error_type error_code in
        let inv' = told-Inv calls in
        (
          after_end ctx held,
          on_task_end_lem ctx held,
          without-Inv inv' held,
          λ s.
              pending-without inv' held s
              ∙ ap (λ r. if t == s then none else r) (pending-told calls s),
          refl,
          refl,
          (refl, refl),
        )

-- In well-formed memory, the end of a task that waits does not fault and answers 0: its listener, if
-- there is one, hears of success or of the error, once; the task no longer waits, every other task
-- does as before, the next number and the listeners stay, and the memory is well formed.
pub on_task_end-pending :
    ⦃h : Host⦄
    → {w : World} → Inv w
    → (t error_type : ℕ) (error_code : ℤ) (callback : Pointer) (body : List ℕ)
    → pending w t ≡ some (callback, body)
    → (v : World) × (on_task_end t error_type error_code w ≡ some (pos 0, v))
      × Inv v
      × ((s : ℕ) → pending v s ≡ (if t == s then none else pending w s))
      × (v.log ≡ end_calls callback error_type error_code ++ w.log)
      × (v.message_id ≡ w.message_id)
      × SameListeners w v
on_task_end-pending {w} inv t error_type error_code callback body waits =
    let (ctx, held, cb, _) = context_of_pending inv waits in
    let (v, run, vinv, view, log, id, listeners) = ends inv t error_type error_code ctx held in
    (
      v,
      run,
      vinv,
      view,
      log ∙ ap (λ c. end_calls c error_type error_code ++ w.log) cb,
      id,
      listeners,
    )
