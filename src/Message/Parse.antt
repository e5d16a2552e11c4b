-- ===== src/Message/Parse.antt =====
-- Reading a message: the accessors on a block that holds one, and `parse` on received bytes.
use mars_wrapper.Prelude.{
  ℕ, Bool, take_all, refl, ◌+◌, ◌≤◌, ◌<◌, ◌^◌, ◌%◌, ◌≡◌, inl, inr, ◌∙◌, ap, List, some, none, arith,
  length, take, ◌==◌, length-take, take-take,
}
use mars_wrapper.Prelude.Int.{pos, to_int, small_int}
use mars_wrapper.Host.{Host}
use mars_wrapper.Memory.Range.{load_at, load_at_inside, load_at_short, store_at_all}
use mars_wrapper.Memory.Access.{load32_lem, load32_short, memcpy_lem, read_block_lem}
use mars_wrapper.Memory.{
  World, block, load32, memcpy, >>=-some, >>=-none, >>-some, M, ◌>>◌, ◌>>=◌, pure, Pointer,
}
use mars_wrapper.Message.{
  header_size, magic_num, magic_offset, id_offset, len_offset, get_data, get_message_id,
  get_message_size, is_valid, parse, default_message,
}
use mars_wrapper.Message.Frame.{raw_frame, magic_at, id_at, len_at}
use mars_wrapper.Message.Header.{len_of, body_of, load_at-len_of, load_at-body_of}
use mars_wrapper.Message.Create.{created, created_again, created_cell, count_size}

module _ ⦃h : Host⦄ (w : World) (p : ℕ) where
  module _ (magic id len : ℕ) (bs : List ℕ)
      (held : w.cells p ≡ some (block (raw_frame magic id len bs))) where
    pub get_data-raw_frame :
        (body : List ℕ)
        → len < 2 ^ 32
        → load_at header_size len (raw_frame magic id len bs) ≡ some body
        → get_data (some p) w ≡ some (body, w)
    unfolding get_data
    get_data-raw_frame body small e = ground (
      arith,
      load32_lem w p len_offset _ _ held (len_at magic id len bs),
      h.value32-bytes32 len,
      read_block_lem w p _ held,
    )

    pub get_message_id-raw_frame : id < 2 ^ 32 → get_message_id (some p) w ≡ some (id, w)
    unfolding get_message_id
    get_message_id-raw_frame small =
        load32_lem w p id_offset _ _ held (id_at magic id len bs) ∙ rw (h.value32-bytes32 id small)

    pub is_valid-raw_frame : magic < 2 ^ 32 → is_valid (some p) w ≡ some (magic == magic_num, w)
    unfolding is_valid
    is_valid-raw_frame small =
        >>=-some (load32 (some p) magic_offset) (λ m. pure (m == magic_num))
          (load32_lem w p magic_offset _ _ held (magic_at magic id len bs))
        ∙ rw (h.value32-bytes32 magic small)

    pub get_message_size-raw_frame :
        len < 2 ^ 31 → get_message_size (some p) w ≡ some (len + header_size, w)
    unfolding get_message_size
    get_message_size-raw_frame small =
        >>=-some (load32 (some p) len_offset) _
          (load32_lem w p len_offset _ _ held (len_at magic id len bs))
        ∙ rw (h.value32-bytes32 len (omega arith)) (ap (λ s. some (s, w)) sum_fits)
      where
        sum_fits : (len + header_size) % h.size_mod % 2 ^ 32 ≡ len + header_size
        sum_fits = elim h.size_mod_cases [ inl e ↦ rw e (omega arith) | inr e ↦ rw e (omega arith) ]

  -- On any block of a header and as many bytes behind it as the header says.
  pub get_data-body_of :
      (b : List ℕ)
      → w.cells p ≡ some (block b)
      → header_size ≤ length b
      → header_size + len_of b ≤ length b
      → get_data (some p) w ≡ some (body_of b, w)
  unfolding get_data
  get_data-body_of b held whole inside =
      let (bs, read, is_len) = load_at-len_of b whole in
      ground (
        arith,
        load32_lem w p len_offset b bs held read,
        read_block_lem w p b held,
        load_at-body_of b whole inside,
      )

  -- A body length beyond the block: the read of the body faults.
  pub get_data_overrun :
      (b : List ℕ)
      → w.cells p ≡ some (block b)
      → header_size ≤ length b
      → length b < header_size + len_of b
      → get_data (some p) w ≡ none
  unfolding get_data
  get_data_overrun b held whole short =
      let (bs, read, is_len) = load_at-len_of b whole in
      ground (
        arith,
        load32_lem w p len_offset b bs held read,
        read_block_lem w p b held,
        load_at_short header_size (len_of b) b short,
      )

  pub get_data_short :
      (b : List ℕ)
      → w.cells p ≡ some (block b)
      → length b < header_size
      → get_data (some p) w ≡ none
  unfolding get_data
  get_data_short b held short =
      ground (arith, load32_short w p len_offset b held (load_at_short len_offset 4 b short))

module _ ⦃h : Host⦄ (w : World) (n : ℕ) (msg : List ℕ) (small : n < 2 ^ 31)
    (readable : n ≤ length msg) where
  copied :
      {A : Type 0} (k : M A)
      → (memcpy (some w.next) 0 msg n >> k) (created w w.message_id (h.malloc w.next n))
        ≡ k (created w w.message_id (take n msg))
  copied k =
      >>-some (memcpy (some w.next) 0 msg n) k (
        memcpy_lem (created w w.message_id (h.malloc w.next n)) w.next 0 n msg (take n msg)
          (h.malloc w.next n) (take n msg) (created_cell w w.message_id (h.malloc w.next n))
          (load_at_inside 0 n msg (omega arith))
          (store_at_all (take n msg) _
            (omega (arith, h.length-malloc w.next n, length-take n msg))))
      ∙ ap k (created_again w w.message_id (h.malloc w.next n) (take n msg))

  -- An object without a message, given a size from 4 to below 2 ^ 31 and that many readable bytes,
  -- takes them without a fault: it tells whether they begin with the magic number, and a fresh block
  -- holds them in either case.
  pub parse_lem :
      4 ≤ n
      → parse default_message msg (pos n) w
        ≡ some (
          (h.value32 (take 4 msg) == magic_num, some w.next),
          created w w.message_id (take n msg),
        )
  unfolding parse
  parse_lem long = rw (count_size n small) (
      copied _
      ∙ >>=-some (load32 (some w.next) magic_offset) _ (
          load32_lem (created w w.message_id (take n msg)) w.next magic_offset (take n msg)
            (take 4 msg) (created_cell w w.message_id (take n msg))
            (load_at_inside 0 4 (take n msg) (omega (arith, length-take n msg))
              ∙ ap some (take-take 4 n msg long))))

  pub parse_short : n < 4 → parse default_message msg (pos n) w ≡ none
  unfolding parse
  parse_short short = rw (count_size n small) (
      copied _
      ∙ >>=-none (load32 (some w.next) magic_offset) _ (
          load32_short (created w w.message_id (take n msg)) w.next magic_offset (take n msg)
            (created_cell w w.message_id (take n msg))
            (load_at_short 0 4 (take n msg) (omega (arith, length-take n msg)))))

-- All the bytes there are, in an object without a message.
module _ ⦃h : Host⦄ (w : World) (b : List ℕ) (small : length b < 2 ^ 31) (long : 4 ≤ length b) where
  pub parse_all :
      {A : Type 0} (k : Bool × Pointer → M A)
      → (parse default_message b (to_int (length b)) >>= k) w
        ≡ k (h.value32 (take 4 b) == magic_num, some w.next) (created w w.message_id b)
  parse_all k = rw (small_int (length b) small) (
      >>=-some (parse default_message b (pos (length b))) k
        (parse_lem w (length b) b small (omega arith) long)
      ∙ ap (λ c. k (h.value32 (take 4 b) == magic_num, some w.next) (created w w.message_id c))
          (take_all b refl))
