-- ===== src/Callback/Push.antt =====
-- `OnPush`: what the listener for pushed messages hears.
use mars_wrapper.Prelude.{
  ℕ, suc, ◌+◌, ◌<◌, ◌^◌, ◌%◌, ◌≡◌, refl, ap, ◌∙◌, List, [], ◌∷◌, ◌++◌, none, some, arith, length,
  take_all,
}
use mars_wrapper.Prelude.Int.{pos, small_int}
use mars_wrapper.Host.{Host}
use mars_wrapper.Buffer.{AutoBuffer}
use mars_wrapper.Memory.{
  World, SameListeners, Pointer, Call, on_push as push_call, >>=-some, >>-some, block, update,
  update-update,
}
use mars_wrapper.Memory.Access.{free_lem}
use mars_wrapper.Message.{magic_num, create, destroy, get_data, is_valid}
use mars_wrapper.Message.Frame.{frame, body_at_end}
use mars_wrapper.Message.Create.{created, created_cell, create_lem}
use mars_wrapper.Message.Parse.{is_valid-raw_frame, get_data-raw_frame}
use mars_wrapper.Proxy.Owned.{Inv, pending}
use mars_wrapper.Proxy.Keep.{Entry-grown, pending-grown}
use mars_wrapper.Callback.{on_push, push_message, get_push_listener}

-- What is said to a listener, if there is one.
abbrev pub push_calls : Pointer → List ℕ → List Call
push_calls none bytes = []
push_calls (some listener) bytes = push_call listener bytes ∷ []

-- One number and one address are used up.
abbrev pub pushed : World → List ℕ → World
pushed w bytes = record w {
  message_id = (w.message_id + 1) % 2 ^ 32;
  next = suc w.next;
  cells = update w.cells w.next none;
  log = push_calls w.push_listener bytes ++ w.log;
}

module _ ⦃h : Host⦄ (w : World) (bytes : List ℕ) (small : length bytes < 2 ^ 31) where
  abbrev made : World
  made = created w ((w.message_id + 1) % 2 ^ 32) (frame w.message_id bytes)

  made_lem : create bytes (pos (length bytes)) w ≡ some (some w.next, made)
  made_lem =
      create_lem w (length bytes) bytes small (omega arith)
      ∙ ap (λ b. some (some w.next, created w ((w.message_id + 1) % 2 ^ 32) (frame w.message_id b)))
          (take_all bytes refl)

  -- The new message is valid, and its body is all that came.
  push_message_lem :
      (listener : Pointer)
      → push_message listener (some w.next) made
        ≡ some (tt, record made { log = push_calls listener bytes ++ w.log })
  unfolding push_message
  push_message_lem none = refl
  push_message_lem (some listener) =
      >>=-some (is_valid (some w.next)) _ (
        is_valid-raw_frame made w.next magic_num w.message_id (length bytes) bytes
          (created_cell w ((w.message_id + 1) % 2 ^ 32) (frame w.message_id bytes)) (omega arith))
      ∙ >>=-some (get_data (some w.next)) _ (
          get_data-raw_frame made w.next magic_num w.message_id (length bytes) bytes
            (created_cell w ((w.message_id + 1) % 2 ^ 32) (frame w.message_id bytes)) bytes
            (omega arith) (body_at_end magic_num w.message_id (length bytes) bytes refl))

  destroyed :
      destroy (some w.next) (record made { log = push_calls w.push_listener bytes ++ w.log })
      ≡ some (tt, pushed w bytes)
  unfolding destroy
  destroyed =
      free_lem (record made { log = push_calls w.push_listener bytes ++ w.log }) w.next
        (frame w.message_id bytes) (ground arith)
      ∙ ap (λ c. some (tt, record (pushed w bytes) { cells = c }))
          (update-update w.cells w.next (some (block (frame w.message_id bytes))) none)

  pub on_push_bytes :
      {Buffer : Type 0} (ops : AutoBuffer Buffer) (body : Buffer) (channel_id cmdid taskid : ℕ)
      → ops.bytes body ≡ bytes
      → on_push ops channel_id cmdid taskid body w ≡ some (tt, pushed w bytes)
  unfolding on_push get_push_listener
  on_push_bytes ops body channel_id cmdid taskid same =
      rw (same, small_int (length bytes) small)
        (>>=-some (create bytes (pos (length bytes))) _ made_lem
          ∙ >>-some (push_message w.push_listener (some w.next)) _
              (push_message_lem w.push_listener)
          ∙ destroyed)

module _ ⦃h : Host⦄ {w : World} (inv : Inv w) (bytes : List ℕ) where
  spared : (p : ℕ) → p < w.next → (pushed w bytes).cells p ≡ w.cells p
  spared p below = ground arith

  pushed-Inv : Inv (pushed w bytes)
  pushed-Inv = record {
    id_fits = omega arith;
    unlocked = inv.unlocked;
    fresh = λ p above. ground (arith, inv.fresh p);
    owned = λ s c there. Entry-grown (pushed w bytes) inv spared (inv.owned s c there);
  }

-- In well-formed memory, a push of fewer than 2 ^ 31 bytes does not fault. The push listener, if there
-- is one, hears all the bytes of the packet, whatever they are, so also the header of a message. Each
-- push uses up one message number; the requests that wait, every address and the listeners stay as
-- they were, and the memory is well formed.
pub on_push_all :
    ⦃h : Host⦄
    → {Buffer : Type 0} (ops : AutoBuffer Buffer) {w : World} → Inv w
    → (channel_id cmdid taskid : ℕ) (body : Buffer) → length (ops.bytes body) < 2 ^ 31
    → (v : World) × (on_push ops channel_id cmdid taskid body w ≡ some (tt, v))
      × Inv v
      × ((s : ℕ) → pending v s ≡ pending w s)
      × ((p : ℕ) → v.cells p ≡ w.cells p)
      × (v.message_id ≡ (w.message_id + 1) % 2 ^ 32)
      × (v.log ≡ push_calls w.push_listener (ops.bytes body) ++ w.log)
      × SameListeners w v
on_push_all ops {w} inv channel_id cmdid taskid body small = (
  pushed w (ops.bytes body),
  on_push_bytes w (ops.bytes body) small ops body channel_id cmdid taskid refl,
  pushed-Inv inv (ops.bytes body),
  λ s. pending-grown (pushed w (ops.bytes body)) inv (spared inv (ops.bytes body)) s refl,
  λ p. ground (arith, inv.fresh w.next),
  refl,
  refl,
  (refl, refl),
)
