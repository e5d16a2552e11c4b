-- ===== src/Message/Transfer.antt =====
-- A message from one side to the other: what the sender made, the receiver reads.
use mars_wrapper.Prelude.{
  ℕ, suc, ◌+◌, ◌≤◌, ◌<◌, ◌^◌, ◌%◌, ◌≡◌, refl, sym, ap, ◌∙◌, List, true, some, none, arith, length,
  take, length-take, ◌==◌, eq_of_some, Bool,
}
use mars_wrapper.Prelude.Int.{pos, to_int}
use mars_wrapper.Host.{Host}
use mars_wrapper.Memory.Range.{load_at_inside}
use mars_wrapper.Memory.Access.{read_block_lem, free_lem}
use mars_wrapper.Memory.{
  World, free, read_block, >>=-some, >>-some, M, ◌>>=◌, ◌>>◌, pure, put_cell, Pointer,
  SameListeners,
}
use mars_wrapper.Message.{
  header_size, magic_num, create, get_message_size, get_message_id, get_data, destroy, parse,
  default_message,
}
use mars_wrapper.Message.Frame.{frame, length-raw_frame, magic_at, body_at_end}
use mars_wrapper.Message.Create.{created, created_cell, create_lem}
use mars_wrapper.Message.Parse.{
  parse_all, get_data-raw_frame, get_message_id-raw_frame, get_message_size-raw_frame,
}
use mars_wrapper.Message.Class.{im_message_class, transfer}

module _ ⦃h : Host⦄ where
  is_magic : (id : ℕ) (body : List ℕ) → h.value32 (take 4 (frame id body)) ≡ magic_num
  is_magic id body =
      ap h.value32 (
        eq_of_some (
          sym (
            load_at_inside 0 4 (frame id body)
              (omega (arith, length-raw_frame magic_num id (length body) body)))
          ∙ magic_at magic_num id (length body) body))
      ∙ h.value32-bytes32 magic_num (omega arith)

  module _ (w : World) (id_fits : w.message_id < 2 ^ 32) (body : List ℕ) (n : ℕ)
      (small : header_size + n < 2 ^ 31) (readable : n ≤ length body) where
    -- With the sender's message, with the receiver's too, and after both.
    abbrev sent : World
    sent = created w ((w.message_id + 1) % 2 ^ 32) (frame w.message_id (take n body))

    abbrev received : World
    received = created sent sent.message_id (frame w.message_id (take n body))

    abbrev gone : World
    gone = put_cell (put_cell received sent.next none) w.next none

    is_length : length (take n body) ≡ n
    is_length = omega (arith, length-take n body)

    length-frame : length (frame w.message_id (take n body)) ≡ header_size + n
    length-frame =
        length-raw_frame magic_num w.message_id (length (take n body)) (take n body)
        ∙ ap (◌+◌ header_size) is_length

    read_back :
        {A : Type 0} (k : ℕ × List ℕ → M A)
        → (do id ← get_message_id (some sent.next); d ← get_data (some sent.next); k (id, d))
            received
          ≡ k (w.message_id, take n body) received
    read_back k =
        >>=-some (get_message_id (some sent.next)) _ (
          get_message_id-raw_frame received sent.next magic_num w.message_id (length (take n body))
            (take n body) (created_cell sent sent.message_id (frame w.message_id (take n body)))
            id_fits)
        ∙ >>=-some (get_data (some sent.next)) _ (
            get_data-raw_frame received sent.next magic_num w.message_id (length (take n body))
              (take n body) (created_cell sent sent.message_id (frame w.message_id (take n body)))
              (take n body) (omega (arith, is_length))
              (body_at_end magic_num w.message_id (length (take n body)) (take n body) refl))

    destroyed :
        {A : Type 0} (a : A)
        → (do destroy (some sent.next); destroy (some w.next); pure a) received ≡ some (a, gone)
    unfolding destroy
    destroyed a =
        >>-some (free (some sent.next)) _ (
          free_lem received sent.next _
            (created_cell sent sent.message_id (frame w.message_id (take n body))))
        ∙ >>-some (free (some w.next)) (pure a) (
            free_lem (put_cell received sent.next none) w.next (frame w.message_id (take n body))
              (ground arith))

    -- The receiver's part, behind `parse`.
    rest : Bool × Pointer → M (Bool × ℕ × List ℕ)
    rest (valid, m) = do
      id ← get_message_id m
      body_read ← get_data m
      destroy m
      destroy (some w.next)
      pure (valid, id, body_read)

    rest_lem : rest (true, some sent.next) received ≡ some ((true, w.message_id, take n body), gone)
    unfolding rest
    rest_lem =
        read_back (λ r. (do destroy (some sent.next); destroy (some w.next); pure (true, r.0, r.1)))
        ∙ destroyed (true, w.message_id, take n body)

    parsed :
        (parse default_message
              (frame w.message_id (take n body))
              (to_int (length (take n body) + header_size))
            >>= rest)
          sent
        ≡ rest (true, some sent.next) received
    parsed =
        ap
          (λ z. (parse default_message (frame w.message_id (take n body)) (to_int z) >>= rest) sent)
          (omega (arith, length-frame, is_length))
        ∙ parse_all sent (frame w.message_id (take n body)) (omega (arith, length-frame))
            (omega (arith, length-frame)) rest
        ∙ ap (λ m. rest (m == magic_num, some sent.next) received)
            (is_magic w.message_id (take n body))

    transfer-run :
        transfer im_message_class body (pos n) w ≡ some ((true, w.message_id, take n body), gone)
    unfolding transfer rest
    transfer-run =
        >>=-some (create body (pos n)) _ (create_lem w n body (omega arith) readable)
        ∙ >>=-some (get_message_size (some w.next)) _ (
            get_message_size-raw_frame sent w.next magic_num w.message_id (length (take n body))
              (take n body) (created_cell w sent.message_id (frame w.message_id (take n body)))
              (omega (arith, is_length)))
        ∙ >>=-some (read_block (some w.next)) _ (
            read_block_lem sent w.next (frame w.message_id (take n body))
              (created_cell w sent.message_id (frame w.message_id (take n body))))
        ∙ parsed
        ∙ rest_lem

    -- A message of `n` bytes that an int can count with its header, made from at least as many readable
    -- ones, under a number below 2 ^ 32, where the addresses to come are free: it crosses whole. The
    -- receiver's `parse` of all its bytes answers true, and its number is the one that the sender took, its
    -- body the first `n` bytes. Once both objects are destroyed every address holds what it held, one
    -- number is used, and the contexts, the calls made and the listeners are the same.
    pub transfer_lem :
        ((p : ℕ) → w.next ≤ p → w.cells p ≡ none)
        → (v : World) × (transfer im_message_class body (pos n) w
            ≡ some ((true, w.message_id, take n body), v))
          × ((p : ℕ) → v.cells p ≡ w.cells p)
          × (v.message_id ≡ (w.message_id + 1) % 2 ^ 32)
          × (v.contexts ≡ w.contexts)
          × (v.log ≡ w.log)
          × SameListeners w v
    transfer_lem fresh = (
      gone,
      transfer-run,
      λ p. ground (arith, fresh w.next, fresh (suc w.next)),
      refl,
      refl,
      refl,
      (refl, refl),
    )
