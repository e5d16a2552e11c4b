-- ===== src/Callback/Response.antt =====
-- `Buf2Resp`: the body of a response reaches the listener of its request.
use mars_wrapper.Prelude.{
  ℕ, suc, ◌⊎◌, inl, inr, ◌+◌, ◌≤◌, ◌<◌, ◌^◌, ◌≡◌, refl, ap, ◌∙◌, List, [], ◌∷◌, ◌++◌, none, some,
  arith, length,
}
use mars_wrapper.Prelude.Int.{pos, negsuc}
use mars_wrapper.Host.{Host}
use mars_wrapper.Buffer.{AutoBuffer}
use mars_wrapper.Memory.{
  World, SameListeners, ◌>>◌, pure, free, update-update, Pointer, Call, on_response, read_context,
  >>=-some, >>=-none, >>-some, call, block, update,
}
use mars_wrapper.Memory.Access.{read_context_lem, free_lem}
use mars_wrapper.Message.{header_size, get_data, destroy}
use mars_wrapper.Message.Header.{len_of, body_of}
use mars_wrapper.Message.Create.{created, created_cell}
use mars_wrapper.Message.Parse.{parse_all, get_data-body_of, get_data_overrun}
use mars_wrapper.Proxy.{get_task_context}
use mars_wrapper.Proxy.Owned.{Inv, pending}
use mars_wrapper.Proxy.Keep.{Entry-grown, pending-grown}
use mars_wrapper.Proxy.Remove.{get_task_context_lem}
use mars_wrapper.Callback.{buf2resp, buf2resp_found, respond}
use mars_wrapper.Callback.TaskEnd.{context_of_pending, no_context}

-- What is left after a message was made, read and destroyed: one more address was used.
abbrev pub answered : World → List Call → World
answered w calls = record w {
  next = suc w.next;
  cells = update w.cells w.next none;
  log = calls ++ w.log;
}

-- The destructor of the local message.
destroyed :
    (w : World) (id : ℕ) (b : List ℕ) (c : Call)
    → (do call c; destroy (some w.next); pure (pos 0)) (created w id b)
      ≡ some (pos 0, record (answered w (c ∷ [])) { message_id = id })
unfolding destroy
destroyed w id b c =
    >>-some (free (some w.next)) (pure (pos 0))
      (free_lem (record (created w id b) { log = c ∷ w.log }) w.next b (ground arith))
    ∙ ap (λ cells. some (pos 0, record (answered w (c ∷ [])) { message_id = id; cells = cells }))
        (update-update w.cells w.next (some (block b)) none)

module _ ⦃h : Host⦄ (w : World) (callback : ℕ) (b : List ℕ) (small : length b < 2 ^ 31)
    (whole : header_size ≤ length b) where
  pub respond_lem :
      header_size + len_of b ≤ length b
      → respond (some callback) b w
        ≡ some (pos 0, answered w (on_response callback (body_of b) ∷ []))
  unfolding respond
  respond_lem inside =
      parse_all w b small (omega (arith, whole)) _
      ∙ >>=-some (get_data (some w.next)) _ (
          get_data-body_of (created w w.message_id b) w.next b (created_cell w w.message_id b) whole
            inside)
      ∙ destroyed w w.message_id b (on_response callback (body_of b))

  respond_overrun : length b < header_size + len_of b → respond (some callback) b w ≡ none
  unfolding respond
  respond_overrun short =
      parse_all w b small (omega (arith, whole)) _
      ∙ >>=-none (get_data (some w.next)) _ (
          get_data_overrun (created w w.message_id b) w.next b (created_cell w w.message_id b) whole
            short)

module _ ⦃h : Host⦄ {w : World} (inv : Inv w) (calls : List Call) where
  spared : (p : ℕ) → p < w.next → (answered w calls).cells p ≡ w.cells p
  spared p below = ground arith

  answered-Inv : Inv (answered w calls)
  answered-Inv = record {
    id_fits = inv.id_fits;
    unlocked = inv.unlocked;
    fresh = λ p above. ground (arith, inv.fresh p);
    owned = λ s c there. Entry-grown (answered w calls) inv spared (inv.owned s c there);
  }

  pending-answered : (s : ℕ) → pending (answered w calls) s ≡ pending w s
  pending-answered s = pending-grown (answered w calls) inv spared s refl

  -- The message that was made for the answer is gone.
  cells-answered : (p : ℕ) → (answered w calls).cells p ≡ w.cells p
  cells-answered p = ground (arith, inv.fresh w.next)

module _ ⦃h : Host⦄ {Buffer : Type 0} (ops : AutoBuffer Buffer) {w : World} (inv : Inv w) (t : ℕ)
    (packet : Buffer) where
  pub reaches :
      (callback : Pointer) (body : List ℕ)
      → pending w t ≡ some (callback, body)
      → buf2resp ops t packet w ≡ respond callback (ops.bytes packet) w
  unfolding buf2resp
  reaches callback body waits =
      let (ctx, held, cb, _) = context_of_pending inv waits in
      let e = inv.owned t ctx held in
      >>=-some (get_task_context t) (λ c. buf2resp_found c (ops.bytes packet))
        (get_task_context_lem held e)
      ∙ >>=-some (read_context (some (suc (suc e.at)))) _
          (read_context_lem w (suc (suc e.at)) _ e.context_cell)
      ∙ ap (λ c. respond c (ops.bytes packet) w) cb

  -- In well-formed memory, for a task that waits with a listener, and a packet of fewer than 2 ^ 31
  -- bytes that has a whole header and all the bytes that the header announces: the call does not
  -- fault and answers 0, and the listener hears the body that the header delimits, whatever the magic
  -- number and the number in the header are. The task still waits, as every other does, every
  -- address holds what it held, the next number and the listeners stay, and the memory is well formed.
  pub buf2resp-pending :
      (callback : ℕ) (body : List ℕ)
      → pending w t ≡ some (some callback, body)
      → header_size + len_of (ops.bytes packet) ≤ length (ops.bytes packet)
      → length (ops.bytes packet) < 2 ^ 31
      → (v : World) × (buf2resp ops t packet w ≡ some (pos 0, v))
        × Inv v
        × ((s : ℕ) → pending v s ≡ pending w s)
        × ((p : ℕ) → v.cells p ≡ w.cells p)
        × (v.log ≡ on_response callback (body_of (ops.bytes packet)) ∷ w.log)
        × (v.message_id ≡ w.message_id)
        × SameListeners w v
  buf2resp-pending callback body waits inside small =
      let calls = on_response callback (body_of (ops.bytes packet)) ∷ [] in
      (
        answered w calls,
        reaches (some callback) body waits
            ∙ respond_lem w callback (ops.bytes packet) small (omega arith) inside,
        answered-Inv inv calls,
        pending-answered inv calls,
        cells-answered inv calls,
        refl,
        refl,
        (refl, refl),
      )

  -- In well-formed memory, for a task that waits with a listener, and a packet of fewer than 2 ^ 31
  -- bytes that has a whole header, which announces more bytes than have come: the call faults.
  pub buf2resp_overrun :
      (callback : ℕ) (body : List ℕ)
      → pending w t ≡ some (some callback, body)
      → header_size ≤ length (ops.bytes packet)
      → length (ops.bytes packet) < header_size + len_of (ops.bytes packet)
      → length (ops.bytes packet) < 2 ^ 31
      → buf2resp ops t packet w ≡ none
  buf2resp_overrun callback body waits whole short small =
      reaches (some callback) body waits
      ∙ respond_overrun w callback (ops.bytes packet) small whole short

  nobody : pending w t ≡ none → buf2resp ops t packet w ≡ some (negsuc 0, w)
  unfolding buf2resp get_task_context
  nobody missing = rw (no_context inv missing)

  no_listener : respond none (ops.bytes packet) w ≡ some (negsuc 0, w)
  unfolding respond
  no_listener = refl

  -- With no listener, or with nothing that waits, the answer is -1 and nothing changes.
  pub buf2resp-silent :
      (pending w t ≡ none) ⊎ ((body : List ℕ) × (pending w t ≡ some (none, body)))
      → buf2resp ops t packet w ≡ some (negsuc 0, w)
  buf2resp-silent (inl missing) = nobody missing
  buf2resp-silent (inr (body, waits)) = reaches none body waits ∙ no_listener
