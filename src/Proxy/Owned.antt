-- ===== src/Proxy/Owned.antt =====
-- Who owns which memory. A request has three allocations in a row, its ImMessage, the block with
-- the bytes of the message, and its TaskContext, and the map of contexts leads to them.
use mars_wrapper.Prelude.{
  ℕ, suc, ◌≤◌, ◌<◌, ◌^◌, ◌≡◌, refl, sym, ap, ◌∙◌, List, Option, none, some, some, false, arith,
  length, drop,
}
use mars_wrapper.Host.{Host}
use mars_wrapper.Memory.{
  World, initial, Pointer, TaskContext, block, im_message, task_context, as_block, update,
  as_message, as_context, cell_at,
}
use mars_wrapper.Proxy.{store_context, lock, unlock, get_task_context}
use mars_wrapper.Message.{header_size, magic_num}
use mars_wrapper.Message.Frame.{frame, id_at, drop-frame}

-- The view of a client: a request that waits is its callback and its body.
abbrev pub Request : Type 0
Request = Pointer × List ℕ

body_of : Pointer → Option (List ℕ) → Option Request
body_of callback none = none
body_of callback (some b) = some (callback, drop header_size b)

message_of : World → Pointer → Option Pointer → Option Request
message_of w callback none = none
message_of w callback (some m) = body_of callback (as_block (cell_at w m))

context_of : World → Option TaskContext → Option Request
context_of w none = none
context_of w (some c) = message_of w c.resp_callback (as_message (cell_at w c.msg))

pointed : World → Option Pointer → Option Request
pointed w none = none
pointed w (some p) = context_of w (as_context (cell_at w p))

-- What the memory says of task `t`.
unfoldable pub pending : World → ℕ → Option Request
unfolding pointed context_of message_of body_of
pending w t = pointed w (w.contexts t)

pub store_context_lem :
    (w : World) (t : ℕ) (ctx : Pointer)
    → w.locked ≡ false
    → store_context t ctx w
      ≡ some (tt, record w { contexts = update w.contexts t (some ctx); locked = false })
unfolding store_context lock unlock get_task_context
store_context_lem w t ctx unlocked = ground arith

module _ ⦃h : Host⦄ where
  pub record Entry (w : World) (t : ℕ) (ctx : Pointer) : Type 0 where
    pub at : ℕ
    pub body : List ℕ
    pub size : ℕ
    pub callback : Pointer
    pub ctx_at : ctx ≡ some (suc (suc at))
    pub message_cell : w.cells at ≡ some (im_message (some (suc at)))
    pub block_cell : w.cells (suc at) ≡ some (block (frame t body))
    pub context_cell :
        w.cells (suc (suc at))
        ≡ some (
            task_context
              (record { need_ack = none; msg = some at; size = size; resp_callback = callback }))
    pub id_fits : t < 2 ^ 32
    pub body_fits : length body < 2 ^ 31

  abbrev pub request_of : {w : World} {t : ℕ} {ctx : Pointer} → Entry w t ctx → Request
  request_of e = (e.callback, e.body)

  pub record Inv (w : World) : Type 0 where
    pub id_fits : w.message_id < 2 ^ 32
    pub unlocked : w.locked ≡ false
    pub fresh : (p : ℕ) → w.next ≤ p → w.cells p ≡ none
    pub owned : (t : ℕ) (ctx : Pointer) → w.contexts t ≡ some ctx → Entry w t ctx

  -- The number in a message is read back from its bytes.
  pub frame-injective :
      (s t : ℕ) (xs ys : List ℕ) → s < 2 ^ 32 → t < 2 ^ 32 → frame s xs ≡ frame t ys → s ≡ t
  frame-injective s t xs ys hs ht e =
      sym (h.value32-bytes32 s hs) ∙ ap h.value32 same ∙ h.value32-bytes32 t ht
    where
      same : h.bytes32 s ≡ h.bytes32 t
      same = cc (id_at magic_num s (length xs) xs, id_at magic_num t (length ys) ys)

  pub pending-none : (w : World) (t : ℕ) → w.contexts t ≡ none → pending w t ≡ none
  unfolding pending
  pending-none w t missing = rw missing

  pub pending-Entry :
      {w : World} {t : ℕ} {ctx : Pointer}
      → w.contexts t ≡ some ctx
      → (e : Entry w t ctx) → pending w t ≡ some (e.callback, e.body)
  unfolding pending
  pending-Entry {w} {t} {ctx} held e = ground (arith, drop-frame t e.body)

  pub initial-Inv : Inv initial
  initial-Inv = record {
    id_fits = omega arith;
    unlocked = refl;
    fresh = λ p _. refl;
    owned = λ t ctx there. absurd (cc there);
  }
