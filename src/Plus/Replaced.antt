-- ===== src/Plus/Replaced.antt =====
-- `sendMessage` under a number that a request still waits under: the counter of 32 bits has come round, or
-- two threads were given one number.
use mars_wrapper.Prelude.{
  ℕ, suc, ◌≤◌, ◌<◌, ◌^◌, ◌≡◌, ◌≢◌, refl, sym, ap, ◌∙◌, inl, List, ◌∷◌, some, none, arith, length,
  take, ℕ_discrete, dec_lt, ◌==◌, if◌then◌else◌,
}
use mars_wrapper.Prelude.Int.{pos}
use mars_wrapper.Host.{Host}
use mars_wrapper.Memory.{World, Pointer, to_stn}
use mars_wrapper.Mars.{start_task}
use mars_wrapper.Proxy.Owned.{Inv, pending}
use mars_wrapper.Proxy.Leaks.{Owns, Owns-one}
use mars_wrapper.Callback.TaskEnd.{context_of_pending}
use mars_wrapper.Plus.{send_message, request_task}
use mars_wrapper.Plus.Send.{sent, send_message_lem}
use mars_wrapper.Plus.Pending.{pending-after}

module _ ⦃h : Host⦄ {w : World} (inv : Inv w) (body : List ℕ) (size : ℕ) (callback : Pointer)
    (small : size < 2 ^ 31) (readable : size ≤ length body) where
  -- An allocation of the request that waited.
  module _ {p : ℕ} (mine : Owns w w.message_id p) where
    is_old : p < w.next
    is_old =
        let (a, there, at) = mine in
        let e = inv.owned w.message_id (some (suc (suc a))) there in
        elim (dec_lt p w.next) [
          | yes below ↦ below
          | no above ↦ absurd (
              ground
                (arith, at, e.ctx_at, e.message_cell, e.block_cell, e.context_cell, inv.fresh p))
        ]

    still_there : w.cells p ≢ none
    still_there gone =
        let (a, there, at) = mine in
        let e = inv.owned w.message_id (some (suc (suc a))) there in
        ground (arith, gone, at, e.ctx_at, e.message_cell, e.block_cell, e.context_cell)

    not_owned : (s : ℕ) → ¬ Owns (sent w body size callback) s p
    not_owned s (b, there, at) = elim (ℕ_discrete w.message_id s) [
      | yes same ↦ absurd (ground (arith, there, same, at, is_old))
      | no other ↦ other (Owns-one inv mine (b, ground (arith, there, other), at))
    ]

    kept : (sent w body size callback).cells p ≡ w.cells p
    kept = ground (arith, is_old)

  -- In well-formed memory, a request of a size below 2 ^ 31, with that many readable bytes, when the next
  -- number is one that a request waits under: `sendMessage` answers 0, and the new request waits under the
  -- number in place of the old one, whose listener is never told; the other tasks wait as before. The three allocations of the old one are
  -- still there, with what they held, and no task in the map leads to any of them: they are leaked.
  pub send_message_replaces :
      (old : Pointer) (old_body : List ℕ)
      → pending w w.message_id ≡ some (old, old_body)
      → (v : World) × (a : ℕ) × (send_message body size callback w ≡ some (pos 0, v))
        × ((s : ℕ)
            → pending v s
              ≡ (if w.message_id == s then some (callback, take size body) else pending w s))
        × (v.log ≡ to_stn (start_task (request_task w.message_id)) ∷ w.log)
        × Owns w w.message_id a
        × ((p : ℕ)
            → Owns w w.message_id p
            → (v.cells p ≡ w.cells p) × (v.cells p ≢ none) × ((s : ℕ) → ¬ Owns v s p))
  send_message_replaces old old_body waits =
      let (ctx, held, _, _) = context_of_pending inv waits in
      let e = inv.owned w.message_id ctx held in
      (
        sent w body size callback,
        e.at,
        send_message_lem w body size callback small readable inv.id_fits inv.unlocked,
        pending-after inv body size callback small readable,
        refl,
        (e.at, held ∙ ap some e.ctx_at, inl refl),
        λ p mine. (kept mine, λ gone. still_there mine (sym (kept mine) ∙ gone), not_owned mine),
      )
