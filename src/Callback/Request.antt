-- ===== src/Callback/Request.antt =====
-- `Req2Buf`: the bytes of a request that waits.
use mars_wrapper.Prelude.{
  ℕ, Bool, Option-cases, inl, inr, suc, ◌+◌, ◌≡◌, refl, ap, ◌∙◌, List, none, some, true, false,
  arith, length,
}
use mars_wrapper.Host.{Host}
use mars_wrapper.Buffer.{AutoBuffer, IsFresh, write-IsFresh}
use mars_wrapper.Memory.Range.{load_at_all}
use mars_wrapper.Memory.{World, Pointer, read_context, read_message, read_block, >>=-some}
use mars_wrapper.Memory.Access.{read_context_lem, read_message_lem, read_block_lem}
use mars_wrapper.Message.{header_size, magic_num, get_message_id, get_data, get_message_size}
use mars_wrapper.Message.Frame.{frame, length-raw_frame, body_at_end}
use mars_wrapper.Message.Parse.{
  get_message_id-raw_frame, get_data-raw_frame, get_message_size-raw_frame,
}
use mars_wrapper.Proxy.{get_task_context}
use mars_wrapper.Proxy.Owned.{Entry, Inv, pending}
use mars_wrapper.Proxy.Remove.{get_task_context_lem}
use mars_wrapper.Callback.{req2buf, req2buf_found, build_echat_tcp_msg}
use mars_wrapper.Callback.TaskEnd.{context_of_pending, no_context}

module _ ⦃h : Host⦄ {Buffer : Type 0} (ops : AutoBuffer Buffer) (out : Buffer) {w : World} where
  build_lem :
      {t : ℕ} {ctx : Pointer} (e : Entry w t ctx)
      → build_echat_tcp_msg ops (some (suc e.at)) out w ≡ some (ops.write out (frame t e.body), w)
  unfolding build_echat_tcp_msg
  build_lem {t} e =
      >>=-some (get_message_id (some (suc e.at))) _
        (get_message_id-raw_frame w (suc e.at) magic_num t n e.body e.block_cell e.id_fits)
      ∙ >>=-some (get_data (some (suc e.at))) _ (
          get_data-raw_frame w (suc e.at) magic_num t n e.body e.block_cell e.body (omega arith)
            (body_at_end magic_num t n e.body refl))
      ∙ >>=-some (get_message_size (some (suc e.at))) _
          (get_message_size-raw_frame w (suc e.at) magic_num t n e.body e.block_cell e.body_fits)
      ∙ >>=-some (read_block (some (suc e.at))) _
          (read_block_lem w (suc e.at) (frame t e.body) e.block_cell)
      ∙ rw (
          load_at_all {n = n + header_size} (frame t e.body)
            (omega (arith, length-raw_frame magic_num t n e.body)))
    where
      n : ℕ
      n = length e.body

  found_lem :
      (t : ℕ) (ctx : Pointer) (held : w.contexts t ≡ some ctx) (e : Entry w t ctx)
      → req2buf ops t out w ≡ some ((true, ops.write out (frame t e.body)), w)
  unfolding req2buf
  found_lem t ctx held e =
      >>=-some (get_task_context t) (λ c. req2buf_found ops c out) (get_task_context_lem held e)
      ∙ >>=-some (read_context (some (suc (suc e.at)))) _
          (read_context_lem w (suc (suc e.at)) _ e.context_cell)
      ∙ >>=-some (read_message (some e.at)) _
          (read_message_lem w e.at (some (suc e.at)) e.message_cell)
      ∙ >>=-some (build_echat_tcp_msg ops (some (suc e.at)) out) _ (build_lem e)

-- In well-formed memory, for a task that waits, the callback answers true, and a buffer that was
-- fresh holds exactly the message with the task's number and body; the state does not change.
pub req2buf-pending :
    ⦃h : Host⦄
    → {Buffer : Type 0} (ops : AutoBuffer Buffer) {w : World} → Inv w
    → (t : ℕ) (callback : Pointer) (body : List ℕ) → pending w t ≡ some (callback, body)
    → (out : Buffer) → IsFresh ops out
    → (out' : Buffer) × (req2buf ops t out w ≡ some ((true, out'), w))
      × (ops.bytes out' ≡ frame t body)
req2buf-pending ops {w} inv t callback body waits out fresh =
    let (ctx, held, _, same) = context_of_pending inv waits in
    let e = inv.owned t ctx held in
    (
      ops.write out (frame t e.body),
      found_lem ops out t ctx held e,
      write-IsFresh ops out (frame t e.body) fresh ∙ ap (frame t) same,
    )

-- For any other number it answers false, and writes nothing.
pub req2buf-none :
    ⦃h : Host⦄
    → {Buffer : Type 0} (ops : AutoBuffer Buffer) {w : World} → Inv w
    → (t : ℕ) → pending w t ≡ none
    → (out : Buffer) → req2buf ops t out w ≡ some ((false, out), w)
unfolding req2buf get_task_context
req2buf-none ops inv t missing out = rw (no_context inv missing)

-- Whatever the number and the buffer are, the call does not fault and does not change the state.
pub req2buf_keeps :
    ⦃h : Host⦄
    → {Buffer : Type 0} (ops : AutoBuffer Buffer) {w : World} → Inv w
    → (t : ℕ) (out : Buffer) → (r : Bool × Buffer) × (req2buf ops t out w ≡ some (r, w))
req2buf_keeps ops {w} inv t out = elim (Option-cases (pending w t)) [
  | inl missing ↦ ((false, out), req2buf-none ops inv t missing out)
  | inr ((callback, body), waits) ↦
      let (ctx, held, _, _) = context_of_pending inv waits in
      ((true, _), found_lem ops out t ctx held (inv.owned t ctx held))
]
