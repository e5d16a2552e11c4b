-- ===== src/Plus/Send.antt =====
-- What `sendMessage` does to the world.
use mars_wrapper.Prelude.{ℕ, suc, ◌≤◌, ◌<◌, ◌^◌, ◌≡◌, ◌∙◌, ◌∷◌, List, some, false, length}
use mars_wrapper.Prelude.Int.{pos}
use mars_wrapper.Host.{Host}
use mars_wrapper.Mars.{start_task}
use mars_wrapper.Memory.{World, Pointer, to_stn, update, >>=-some, >>-some}
use mars_wrapper.Proxy.{store_context}
use mars_wrapper.Proxy.Owned.{store_context_lem}
use mars_wrapper.Plus.{send_message, prepare, request_task}
use mars_wrapper.Plus.Prepare.{prepared, prepare_lem}

module _ ⦃h : Host⦄ (w : World) (body : List ℕ) (size : ℕ) (callback : Pointer) where
  -- With the context in the map, and the request handed to the mars library.
  abbrev pub sent : World
  sent =
      let p = prepared w body size callback in
      record p {
        contexts = update w.contexts w.message_id (some (some (suc (suc w.next))));
        locked = false;
        log = to_stn (start_task (request_task w.message_id)) ∷ w.log;
      }

  pub send_message_lem :
      size < 2 ^ 31
      → size ≤ length body
      → w.message_id < 2 ^ 32
      → w.locked ≡ false
      → send_message body size callback w ≡ some (pos 0, sent)
  unfolding send_message
  send_message_lem small readable id_fits unlocked =
      let p = prepared w body size callback in
      >>=-some (prepare body size callback) _
        (prepare_lem w body size callback small readable id_fits)
      ∙ >>-some (store_context w.message_id (some (suc (suc w.next)))) _
          (store_context_lem p w.message_id (some (suc (suc w.next))) unlocked)
