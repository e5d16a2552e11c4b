-- ===== src/Callback/Freed.antt =====
-- `OnTaskEnd`: what it gives back of the memory.
use mars_wrapper.Prelude.{
  ℕ, suc, ◌≡◌, ◌≢◌, refl, ap, ◌∙◌, inl, inr, List, ◌++◌, none, some, if◌then◌else◌, ◌==◌, arith,
}
use mars_wrapper.Prelude.Int.{ℤ, pos}
use mars_wrapper.Host.{Host}
use mars_wrapper.Memory.{World, SameListeners, Pointer}
use mars_wrapper.Proxy.Owned.{Inv, pending}
use mars_wrapper.Proxy.Remove.{without}
use mars_wrapper.Proxy.Leaks.{Owns}
use mars_wrapper.Callback.{on_task_end}
use mars_wrapper.Callback.TaskEnd.{
  end_calls, context_of_pending, after_end, told-Inv, on_task_end_lem, on_task_end-pending,
}

module _ ⦃h : Host⦄ {w : World} (inv : Inv w) {t : ℕ} {ctx : Pointer}
    (held : w.contexts t ≡ some ctx) where
  -- The addresses of the task's request are those of its entry.
  same_address : {a : ℕ} → w.contexts t ≡ some (some (suc (suc a))) → a ≡ (inv.owned t ctx held).at
  same_address there = ground (arith, there, held, (inv.owned t ctx held).ctx_at)

  own_address : Owns w t ((inv.owned t ctx held).at)
  own_address =
      ((inv.owned t ctx held).at, held ∙ ap some ((inv.owned t ctx held).ctx_at), inl refl)

  freed : (p : ℕ) → Owns w t p → (w.cells p ≢ none) × ((without inv held).cells p ≡ none)
  freed p (a, there, at) =
      let e = inv.owned t ctx held in
      let same = same_address there in
      (
        λ gone.
            absurd (ground (arith, at, same, gone, e.message_cell, e.block_cell, e.context_cell)),
        ground (arith, at, same),
      )

  kept : (p : ℕ) → (¬ Owns w t p) → (without inv held).cells p ≡ w.cells p
  kept p apart =
      let e = inv.owned t ctx held in
      let there = held ∙ ap some e.ctx_at in
      let message : p ≢ e.at = λ same. apart (e.at, there, inl same) in
      let block : p ≢ suc e.at = λ same. apart (e.at, there, inr (inl same)) in
      let context : p ≢ suc (suc e.at) = λ same. apart (e.at, there, inr (inr same)) in
      ground (arith, message, block, context)

-- In well-formed memory, the end of a task that waits does not fault and answers 0. Its listener, if
-- there is one, hears of success or of the error, once, and nobody else hears anything; the task no
-- longer waits, every other task does as before, the next number and the listeners stay, and the
-- memory is well formed. The allocations of its request, which were there, are all given back: its
-- message, its block and its context. No other memory is touched.
pub on_task_end_frees :
    ⦃h : Host⦄
    → {w : World} → Inv w
    → (t error_type : ℕ) (error_code : ℤ) (callback : Pointer) (body : List ℕ)
    → pending w t ≡ some (callback, body)
    → (v : World) × (a : ℕ) × (on_task_end t error_type error_code w ≡ some (pos 0, v))
      × Inv v
      × ((s : ℕ) → pending v s ≡ (if t == s then none else pending w s))
      × (v.log ≡ end_calls callback error_type error_code ++ w.log)
      × (v.message_id ≡ w.message_id)
      × SameListeners w v
      × Owns w t a
      × ((p : ℕ) → Owns w t p → (w.cells p ≢ none) × (v.cells p ≡ none))
      × ((p : ℕ) → (¬ Owns w t p) → v.cells p ≡ w.cells p)
on_task_end_frees {w} inv t error_type error_code callback body waits =
    let (ctx, held, cb, _) = context_of_pending inv waits in
    let (v, run, vinv, view, log, id, listeners) =
      on_task_end-pending inv t error_type error_code callback body waits in
    let same : v ≡ after_end inv t error_type error_code ctx held =
      cc (run, on_task_end_lem inv t error_type error_code ctx held) in
    let heard = told-Inv inv (end_calls ((inv.owned t ctx held).callback) error_type error_code) in
    (
      v,
      (inv.owned t ctx held).at,
      run,
      vinv,
      view,
      log,
      id,
      listeners,
      own_address inv held,
      λ p mine.
          (let (was, gone) = freed heard held p mine in (was, ap (λ u. u.cells p) same ∙ gone)),
      λ p apart. ap (λ u. u.cells p) same ∙ kept heard held p apart,
    )
