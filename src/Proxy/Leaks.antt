-- ===== src/Proxy/Leaks.antt =====
-- Memory that nobody owns any more: when each allocation still belongs to a request in the map.
use mars_wrapper.Prelude.{ℕ, suc, ◌≡◌, sym, ◌∙◌, ◌⊎◌, some, arith, ℕ_discrete}
use mars_wrapper.Host.{Host}
use mars_wrapper.Memory.{World, Pointer, Object, initial}
use mars_wrapper.Proxy.Owned.{Inv}
use mars_wrapper.Proxy.Remove.{without, elsewhere}

-- The address is the message, the block or the context of the request `t`.
abbrev pub Owns : World → ℕ → ℕ → Type 0
Owns w t p =
    (a : ℕ) × (w.contexts t ≡ some (some (suc (suc a))))
    × ((p ≡ a) ⊎ (p ≡ suc a) ⊎ (p ≡ suc (suc a)))

abbrev pub AllOwned : World → Type 0
AllOwned w = (p : ℕ) (o : Object) → w.cells p ≡ some o → (t : ℕ) × Owns w t p

pub initial-AllOwned : AllOwned initial
initial-AllOwned p o held = absurd (cc held)

-- Nothing changed in memory and in the map.
pub AllOwned-kept :
    (w v : World)
    → ((p : ℕ) → v.cells p ≡ w.cells p)
    → ((t : ℕ) → v.contexts t ≡ w.contexts t)
    → AllOwned w
    → AllOwned v
AllOwned-kept w v cells contexts all p o held =
    let (t, (a, there, where_at)) = all p o (sym (cells p) ∙ held) in
    (t, (a, contexts t ∙ there, where_at))

-- What is still allocated when a request has been removed belongs to another.
pub AllOwned-without :
    ⦃h : Host⦄
    → {w : World} (inv : Inv w) {t : ℕ} {ctx : Pointer} (held : w.contexts t ≡ some ctx)
    → AllOwned w
    → AllOwned (without inv held)
AllOwned-without {w} inv {t} {ctx} held all p o there =
    let e = inv.owned t ctx held in
    let (s, (a, context, at)) = all p o (ground (arith, there)) in
    (s, (a, ground (arith, there, at, held, context, e.ctx_at), at))

-- No address belongs to two requests.
pub Owns-one : ⦃h : Host⦄ → {w : World} → Inv w → {s t p : ℕ} → Owns w s p → Owns w t p → s ≡ t
Owns-one {w} inv {s} {t} {p} (a, there, at) (b, there', at') = elim (ℕ_discrete s t) [
  | yes same ↦ same
  | no other ↦
      let e = inv.owned s (some (suc (suc a))) there in
      let f = inv.owned t (some (suc (suc b))) there' in
      absurd (
        ground (
          arith,
          at,
          at',
          elsewhere inv there other f,
          e.ctx_at,
          f.ctx_at,
          e.message_cell,
          e.block_cell,
          e.context_cell,
          f.message_cell,
          f.block_cell,
          f.context_cell,
        ))
]
