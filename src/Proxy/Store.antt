-- ===== src/Proxy/Store.antt =====
-- `storeContext`: from then on the task waits with what its TaskContext holds.
use mars_wrapper.Prelude.{
  ℕ, ◌≡◌, refl, subst, sym, ap, ◌∙◌, some, false, arith, ℕ_discrete, if◌then◌else◌, ◌==◌,
}
use mars_wrapper.Host.{Host}
use mars_wrapper.Memory.{World, Pointer, update}
use mars_wrapper.Proxy.Owned.{Entry, request_of, Inv, pending, pending-Entry}
use mars_wrapper.Proxy.Keep.{Entry-grown, request_of-Entry-grown, pending-grown}

module _ ⦃h : Host⦄ {w : World} (inv : Inv w) {t : ℕ} {ctx : Pointer} (e : Entry w t ctx) where
  abbrev pub linked : World
  linked = record w { contexts = update w.contexts t (some ctx); locked = false }

  new_entry : Entry linked t ctx
  new_entry = Entry-grown linked inv (λ p _. refl) e

  entry_at : (s : ℕ) (c : Pointer) → t ≡ s → ctx ≡ c → Entry linked s c
  entry_at s c own same =
      subst (λ s. Entry linked s c) own (subst (λ c. Entry linked t c) same new_entry)

  pub linked-Inv : Inv linked
  linked-Inv = record {
    id_fits = inv.id_fits;
    unlocked = refl;
    fresh = inv.fresh;
    owned = λ s c there. elim (ℕ_discrete t s) [
      | yes own ↦ entry_at s c own (ground arith)
      | no other ↦ Entry-grown linked inv (λ p _. refl) (inv.owned s c (ground arith))
    ];
  }

  pub pending-linked :
      (s : ℕ) → pending linked s ≡ (if t == s then some (request_of e) else pending w s)
  unfolding new_entry
  pending-linked s = elim (ℕ_discrete t s) [
    | yes own ↦
        ap (pending linked) (sym own)
        ∙ pending-Entry (ground arith) new_entry
        ∙ ap some (request_of-Entry-grown linked inv (λ p _. refl) e)
        ∙ ground arith
    | no other ↦ pending-grown linked inv (λ p _. refl) s (ground arith) ∙ ground arith
  ]
