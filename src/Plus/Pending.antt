-- ===== src/Plus/Pending.antt =====
-- `sendMessage` against the view of its client, a map from task numbers to requests.
use mars_wrapper.Prelude.{
  ℕ, suc, ◌+◌, ◌≤◌, ◌<◌, ◌^◌, ◌%◌, ◌≡◌, refl, ◌∙◌, List, [], ◌∷◌, ap₂, some, length, take,
  if◌then◌else◌, ◌==◌,
}
use mars_wrapper.Prelude.Int.{pos}
use mars_wrapper.Host.{Host}
use mars_wrapper.Mars.{start_task}
use mars_wrapper.Memory.{World, Pointer, SameListeners, Call, to_stn}
use mars_wrapper.Proxy.Owned.{Entry, Inv, pending}
use mars_wrapper.Proxy.Store.{linked-Inv, pending-linked}
use mars_wrapper.Callback.TaskEnd.{told-Inv, pending-told}
use mars_wrapper.Plus.Prepare.{
  prepared, prepared-Inv, prepared-Entry, request_of-prepared-Entry, pending-prepared,
}
use mars_wrapper.Plus.Send.{sent, send_message_lem}
use mars_wrapper.Plus.{send_message, request_task}

module _ ⦃h : Host⦄ {w : World} (inv : Inv w) (body : List ℕ) (size : ℕ) (callback : Pointer)
    (small : size < 2 ^ 31) (readable : size ≤ length body) where
  abbrev pub after : World
  after = sent w body size callback

  abbrev calls : List Call
  calls = to_stn (start_task (request_task w.message_id)) ∷ []

  made : Inv (prepared w body size callback)
  made = prepared-Inv inv body size callback

  entry : Entry (prepared w body size callback) w.message_id (some (suc (suc w.next)))
  entry = prepared-Entry inv body size callback small readable

  pub after-Inv : Inv after
  after-Inv = told-Inv (linked-Inv made entry) calls

  pub pending-after :
      (t : ℕ)
      → pending after t
        ≡ (if w.message_id == t then some (callback, take size body) else pending w t)
  unfolding entry
  pending-after t =
      pending-told (linked-Inv made entry) calls t
      ∙ pending-linked made entry t
      ∙ ap₂ (λ x y. if w.message_id == t then some x else y)
          (request_of-prepared-Entry inv body size callback small readable)
          (pending-prepared inv body size callback t)

-- In well-formed memory, a request of a size below 2 ^ 31, with that many readable bytes, is taken
-- without a fault: the call answers 0, and its first `size` bytes and its listener wait under the next
-- number, in place of any request that waited there; every other task waits as before. The mars
-- library is asked once to start the task of that number, the next number is one higher modulo
-- 2 ^ 32, the listeners stay, and the memory is well formed.
pub send_message-pending :
    ⦃h : Host⦄
    → {w : World} → Inv w
    → (body : List ℕ) (size : ℕ) (callback : Pointer) → size < 2 ^ 31
    → size ≤ length body
    → (v : World) × (send_message body size callback w ≡ some (pos 0, v))
      × Inv v
      × ((t : ℕ)
          → pending v t
            ≡ (if w.message_id == t then some (callback, take size body) else pending w t))
      × (v.log ≡ to_stn (start_task (request_task w.message_id)) ∷ w.log)
      × (v.message_id ≡ (w.message_id + 1) % 2 ^ 32)
      × SameListeners w v
send_message-pending {w} inv body size callback small readable = (
  sent w body size callback,
  send_message_lem w body size callback small readable inv.id_fits inv.unlocked,
  after-Inv inv body size callback small readable,
  pending-after inv body size callback small readable,
  refl,
  refl,
  (refl, refl),
)
