-- ===== src/Proxy/Remove.antt =====
-- `removeTaskContext`: a request's three allocations are freed, each once, and nobody else's.
use mars_wrapper.Prelude.{
  ℕ, suc, ◌≡◌, ◌≢◌, refl, sym, ap, ◌∙◌, inl, inr, Option, none, some, false, arith, ℕ_discrete,
  Option-cases, if◌then◌else◌, ◌==◌,
}
use mars_wrapper.Host.{Host}
use mars_wrapper.Memory.{
  World, SameListeners, Pointer, Object, update, read_message, read_context, delete_context, free,
  >>=-some, >>-some, ◌>>◌, default_context,
}
use mars_wrapper.Memory.Access.{read_context_lem, delete_context_lem}
use mars_wrapper.Message.{destroy}
use mars_wrapper.Message.Frame.{frame}
use mars_wrapper.Proxy.{
  remove_task_context, put_context, delete_message, lock, unlock, get_task_context,
}
use mars_wrapper.Proxy.Owned.{Entry, Inv, pending, pending-none, frame-injective}
use mars_wrapper.Proxy.Keep.{Entry-kept, pending-Entry-kept}

module _ ⦃h : Host⦄ {w : World} {t : ℕ} {ctx : Pointer} (held : w.contexts t ≡ some ctx)
    (e : Entry w t ctx) where
  abbrev message_freed : ℕ → Option Object
  message_freed = update (update w.cells (suc e.at) none) e.at none

  abbrev pub removed : World
  removed = record w {
    cells = update message_freed (suc (suc e.at)) none;
    contexts = update w.contexts t none;
    locked = false;
  }

  delete_message_lem : delete_message (some e.at) w ≡ some (tt, record w { cells = message_freed })
  unfolding delete_message destroy free read_message
  delete_message_lem = ground (arith, e.message_cell, e.block_cell)

  pub get_task_context_lem : get_task_context t w ≡ some (some (suc (suc e.at)), w)
  unfolding get_task_context
  get_task_context_lem = rw (held, e.ctx_at)

  unlinked : World
  unlinked = record w { cells = message_freed; contexts = update w.contexts t none; locked = false }

  unlink_lem :
      w.locked ≡ false
      → (lock >> (put_context t none >> (unlock >> delete_context (some (suc (suc e.at))))))
          (record w { cells = message_freed })
        ≡ delete_context (some (suc (suc e.at))) unlinked
  unfolding lock unlock unlinked
  unlink_lem unlocked = ground arith

  pub remove_task_context_lem : w.locked ≡ false → remove_task_context t w ≡ some (tt, removed)
  unfolding remove_task_context unlinked
  remove_task_context_lem unlocked =
      >>=-some (get_task_context t) _ get_task_context_lem
      ∙ >>=-some (read_context (some (suc (suc e.at)))) _
          (read_context_lem w (suc (suc e.at)) _ e.context_cell)
      ∙ >>-some (delete_message (some e.at)) _ delete_message_lem
      ∙ unlink_lem unlocked
      ∙ delete_context_lem unlinked (suc (suc e.at))
          (record default_context { msg = some e.at; size = e.size; resp_callback = e.callback })
          (ground (arith, e.context_cell))

module _ ⦃h : Host⦄ {w : World} (inv : Inv w) {t : ℕ} {ctx : Pointer}
    (held : w.contexts t ≡ some ctx) where
  abbrev pub own : Entry w t ctx
  own = inv.owned t ctx held

  abbrev pub without : World
  without = removed held own

  pub elsewhere : {s : ℕ} {c : Pointer} → t ≢ s → (f : Entry w s c) → own.at ≢ f.at
  elsewhere {s} other f same =
      other (frame-injective t s own.body f.body own.id_fits f.id_fits same_bytes)
    where
      same_bytes : frame t own.body ≡ frame s f.body
      same_bytes = cc (own.block_cell, f.block_cell, ap (λ a. w.cells (suc a)) same)

  -- The allocations of another task are others.
  pub apart :
      {s : ℕ} {c : Pointer}
      → t ≢ s
      → (f : Entry w s c)
      → (without.cells f.at ≡ w.cells f.at)
        × (without.cells (suc f.at) ≡ w.cells (suc f.at))
        × (without.cells (suc (suc f.at)) ≡ w.cells (suc (suc f.at)))
  apart other f = ground (
    arith,
    elsewhere other f,
    own.message_cell,
    own.block_cell,
    own.context_cell,
    f.message_cell,
    f.block_cell,
    f.context_cell,
  )

  other_entry : (s : ℕ) (c : Pointer) → t ≢ s → w.contexts s ≡ some c → Entry without s c
  other_entry s c other there =
      let f = inv.owned s c there in let (m, b, x) = apart other f in Entry-kept without f m b x

  pub without-Inv : Inv without
  without-Inv = record {
    id_fits = inv.id_fits;
    unlocked = refl;
    fresh = λ p above. ground (arith, inv.fresh p);
    owned = λ s c there. elim (ℕ_discrete t s) [
      | yes same ↦ absurd (ground arith)
      | no other ↦ other_entry s c other (ground arith)
    ];
  }

  pub pending-without : (s : ℕ) → pending without s ≡ (if t == s then none else pending w s)
  pending-without s = elim (ℕ_discrete t s) [
    | yes same ↦ pending-none without s (ground arith) ∙ ground arith
    | no other ↦ elim (Option-cases (w.contexts s)) [
      | inl missing ↦
          pending-none without s (ground arith) ∙ sym (pending-none w s missing) ∙ ground arith
      | inr (c, there) ↦
          let f = inv.owned s c there in
          let (m, b, x) = apart other f in
          pending-Entry-kept without f there (ground arith) m b x ∙ ground arith
    ]
  ]

-- In well-formed memory, a task that has a context is removed without a fault; no longer does it wait,
-- every other task does as before, no call is made, the next number and the listeners stay, and the
-- memory is well formed.
pub remove_task_context-pending :
    ⦃h : Host⦄
    → {w : World} → Inv w
    → {t : ℕ} {ctx : Pointer} → w.contexts t ≡ some ctx
    → (v : World) × (remove_task_context t w ≡ some (tt, v))
      × Inv v
      × ((s : ℕ) → pending v s ≡ (if t == s then none else pending w s))
      × (v.log ≡ w.log)
      × (v.message_id ≡ w.message_id)
      × SameListeners w v
remove_task_context-pending {w} inv {t} {ctx} held = (
  without inv held,
  remove_task_context_lem held (inv.owned t ctx held) inv.unlocked,
  without-Inv inv held,
  pending-without inv held,
  refl,
  refl,
  (refl, refl),
)
