-- ===== src/Proxy/Keep.antt =====
-- A change of memory that spares the allocations of a request leaves the request as it was.
use mars_wrapper.Prelude.{
  ℕ, suc, ◌<◌, ◌≡◌, refl, sym, ◌∙◌, inl, inr, some, arith, dec_lt, Option-cases,
}
use mars_wrapper.Host.{Host}
use mars_wrapper.Memory.{World, Pointer, Object}
use mars_wrapper.Proxy.Owned.{Entry, request_of, Inv, pending, pending-none, pending-Entry}

module _ ⦃h : Host⦄ where
  -- What is allocated lies below `next`.
  pub allocated-lt : {w : World} → Inv w → (p : ℕ) {o : Object} → w.cells p ≡ some o → p < w.next
  allocated-lt {w} inv p held = elim (dec_lt p w.next) [
    | yes below ↦ below
    | no above ↦ cc (held, inv.fresh p (omega arith))
  ]

  module _ {w : World} (v : World) {t : ℕ} {ctx : Pointer} (e : Entry w t ctx) where
    pub Entry-kept :
        v.cells e.at ≡ w.cells e.at
        → v.cells (suc e.at) ≡ w.cells (suc e.at)
        → v.cells (suc (suc e.at)) ≡ w.cells (suc (suc e.at))
        → Entry v t ctx
    Entry-kept m b c = record {
      at = e.at;
      body = e.body;
      size = e.size;
      callback = e.callback;
      ctx_at = e.ctx_at;
      message_cell = m ∙ e.message_cell;
      block_cell = b ∙ e.block_cell;
      context_cell = c ∙ e.context_cell;
      id_fits = e.id_fits;
      body_fits = e.body_fits;
    }

    pub request_of-Entry-kept :
        (m : v.cells e.at ≡ w.cells e.at) (b : v.cells (suc e.at) ≡ w.cells (suc e.at))
        (c : v.cells (suc (suc e.at)) ≡ w.cells (suc (suc e.at)))
        → request_of (Entry-kept m b c) ≡ request_of e
    unfolding Entry-kept
    request_of-Entry-kept m b c = refl

    pub pending-Entry-kept :
        w.contexts t ≡ some ctx
        → v.contexts t ≡ w.contexts t
        → v.cells e.at ≡ w.cells e.at
        → v.cells (suc e.at) ≡ w.cells (suc e.at)
        → v.cells (suc (suc e.at)) ≡ w.cells (suc (suc e.at))
        → pending v t ≡ pending w t
    unfolding Entry-kept
    pending-Entry-kept held same m b c =
        pending-Entry (same ∙ held) (Entry-kept m b c) ∙ sym (pending-Entry held e)

  -- A world in which all that was allocated before is kept.
  module _ {w : World} (v : World) (inv : Inv w)
      (keeps : (p : ℕ) → p < w.next → v.cells p ≡ w.cells p) where
    pub Entry-grown : {t : ℕ} {ctx : Pointer} → Entry w t ctx → Entry v t ctx
    Entry-grown e =
        Entry-kept v e (keeps _ (allocated-lt inv _ e.message_cell))
          (keeps _ (allocated-lt inv _ e.block_cell)) (keeps _ (allocated-lt inv _ e.context_cell))

    pub request_of-Entry-grown :
        {t : ℕ} {ctx : Pointer} (e : Entry w t ctx) → request_of (Entry-grown e) ≡ request_of e
    unfolding Entry-grown
    request_of-Entry-grown e = request_of-Entry-kept v e _ _ _

    pub at-Entry-grown : {t : ℕ} {ctx : Pointer} (e : Entry w t ctx) → (Entry-grown e).at ≡ e.at
    unfolding Entry-grown Entry-kept
    at-Entry-grown e = refl

    pub pending-grown : (t : ℕ) → v.contexts t ≡ w.contexts t → pending v t ≡ pending w t
    pending-grown t same = elim (Option-cases (w.contexts t)) [
      | inl missing ↦ pending-none v t (same ∙ missing) ∙ sym (pending-none w t missing)
      | inr (ctx, held) ↦
          let e = inv.owned t ctx held in
          pending-Entry-kept v e held same (keeps _ (allocated-lt inv _ e.message_cell))
            (keeps _ (allocated-lt inv _ e.block_cell))
            (keeps _ (allocated-lt inv _ e.context_cell))
    ]
