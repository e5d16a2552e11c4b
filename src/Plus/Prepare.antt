-- ===== src/Plus/Prepare.antt =====
-- The first part of `sendMessage`: what it allocates, and that it belongs to the new number.
use mars_wrapper.Prelude.{
  ℕ, suc, ◌+◌, ◌≤◌, ◌<◌, ◌^◌, ◌%◌, ◌≡◌, refl, length-take, ◌∙◌, List, Option, none, some, arith,
  length, take,
}
use mars_wrapper.Prelude.Int.{pos, small_int}
use mars_wrapper.Host.{Host}
use mars_wrapper.Memory.{
  World, Pointer, Object, block, im_message, task_context, default_context, update, read_message,
  >>=-some,
}
use mars_wrapper.Memory.Access.{read_message_lem}
use mars_wrapper.Message.{header_size, magic_num, create, get_message_id}
use mars_wrapper.Message.Frame.{frame}
use mars_wrapper.Message.Create.{create_lem}
use mars_wrapper.Message.Parse.{get_message_id-raw_frame}
use mars_wrapper.Plus.{new_message, prepare}
use mars_wrapper.Proxy.Owned.{Entry, request_of, Inv, pending}
use mars_wrapper.Proxy.Keep.{Entry-grown, pending-grown}

module _ ⦃h : Host⦄ (w : World) (body : List ℕ) (size : ℕ) (callback : Pointer) where
  -- The message object and its block, in the order of the writes.
  abbrev made_cells : ℕ → Option Object
  made_cells =
      let c1 = update w.cells w.next (some (im_message none)) in
      let c2 = update c1 (suc w.next) (some (block (frame w.message_id (take size body)))) in
      update c2 w.next (some (im_message (some (suc w.next))))

  abbrev made : World
  made = record w {
    message_id = (w.message_id + 1) % 2 ^ 32;
    next = suc (suc w.next);
    cells = made_cells;
  }

  new_message_lem :
      size < 2 ^ 31 → size ≤ length body → new_message body (pos size) w ≡ some (w.next, made)
  unfolding new_message
  new_message_lem small readable =
      >>=-some (create body (pos size)) _ (create_lem w1 size body small readable)
    where
      w1 : World
      w1 = record w { next = suc w.next; cells = update w.cells w.next (some (im_message none)) }

  made_id :
      w.message_id < 2 ^ 32 → get_message_id (some (suc w.next)) made ≡ some (w.message_id, made)
  made_id fits =
      get_message_id-raw_frame made (suc w.next) magic_num w.message_id (length (take size body))
        (take size body) (ground arith) fits

  -- With the TaskContext too.
  abbrev pub prepared : World
  prepared = record made {
    next = suc (suc (suc w.next));
    cells = update made_cells (suc (suc w.next)) (
        some (
          task_context (record default_context {
            msg = some w.next;
            size = (size + header_size) % h.size_mod % 2 ^ 32;
            resp_callback = callback;
          })));
  }

  pub prepare_lem :
      size < 2 ^ 31
      → size ≤ length body
      → w.message_id < 2 ^ 32
      → prepare body size callback w ≡ some ((w.message_id, some (suc (suc w.next))), prepared)
  unfolding prepare
  prepare_lem small readable id_fits = rw (small_int size small) (
      >>=-some (new_message body (pos size)) _ (new_message_lem small readable)
      ∙ >>=-some (read_message (some w.next)) _
          (read_message_lem made w.next (some (suc w.next)) (ground arith))
      ∙ >>=-some (get_message_id (some (suc w.next))) _ (made_id id_fits))

module _ ⦃h : Host⦄ {w : World} (inv : Inv w) (body : List ℕ) (size : ℕ) (callback : Pointer) where
  pub spared : (p : ℕ) → p < w.next → (prepared w body size callback).cells p ≡ w.cells p
  spared p below = ground arith

  pub prepared-Entry :
      size < 2 ^ 31
      → size ≤ length body
      → Entry (prepared w body size callback) w.message_id (some (suc (suc w.next)))
  prepared-Entry small readable = record {
    at = w.next;
    body = take size body;
    size = (size + header_size) % h.size_mod % 2 ^ 32;
    callback = callback;
    ctx_at = refl;
    message_cell = ground arith;
    block_cell = ground arith;
    context_cell = ground arith;
    id_fits = inv.id_fits;
    body_fits = omega (arith, length-take size body);
  }

  pub request_of-prepared-Entry :
      (small : size < 2 ^ 31) (readable : size ≤ length body)
      → request_of (prepared-Entry small readable) ≡ (callback, take size body)
  unfolding prepared-Entry
  request_of-prepared-Entry small readable = refl

  pub prepared-Inv : Inv (prepared w body size callback)
  prepared-Inv = record {
    id_fits = omega arith;
    unlocked = inv.unlocked;
    fresh = λ p above. ground (arith, inv.fresh p);
    owned =
        λ s c there. Entry-grown (prepared w body size callback) inv spared (inv.owned s c there);
  }

  pub pending-prepared : (s : ℕ) → pending (prepared w body size callback) s ≡ pending w s
  pending-prepared s = pending-grown (prepared w body size callback) inv spared s refl
