-- ===== src/Message/Create.antt =====
-- The constructor ImMessage(data, size): it fills a fresh block whose bytes are indeterminate.
use mars_wrapper.Prelude.{
  ℕ, suc, ◌+◌, ◌-◌, ◌≤◌, ◌<◌, ◌^◌, ◌%◌, ◌≡◌, refl, inl, inr, ◌∙◌, ap, List, [], ◌++◌, some, none,
  arith, length, length-append, append-nil, append_assoc, take, length-take, split_at, dec_lt,
}
use mars_wrapper.Prelude.Int.{pos, negsuc}
use mars_wrapper.Host.{Host}
use mars_wrapper.Memory.Range.{load_at, store_at, store_at-append, load_at_inside}
use mars_wrapper.Memory.Access.{store32_lem, memcpy_lem, memcpy_too_long, store32_short}
use mars_wrapper.Memory.{
  World, block, update, update-update, put_cell, store32, memcpy, M, ◌>>◌, >>-some, >>-none, pure,
}
use mars_wrapper.Message.{
  header_size, magic_num, id_offset, len_offset, create, write_message, new_message_id,
}
use mars_wrapper.Message.Frame.{frame, raw_frame, length-raw_frame}

-- The four writes, on a block in four parts.
module _ (a i l d : List ℕ) (la : length a ≡ 4) (li : length i ≡ 4) (ll : length l ≡ 4) where
  fill_len :
      (bs : List ℕ)
      → length bs ≡ 4
      → store_at len_offset bs (a ++ (i ++ (l ++ d))) ≡ some (a ++ (i ++ (bs ++ d)))
  fill_len bs e =
      rw (← append_assoc a i (l ++ d), ← append_assoc a i (bs ++ d))
        (store_at-append (a ++ i) l d bs (omega (arith, length-append a i)) (omega arith))

  fill_magic :
      (bs : List ℕ)
      → length bs ≡ 4
      → store_at 0 bs (a ++ (i ++ (l ++ d))) ≡ some (bs ++ (i ++ (l ++ d)))
  fill_magic bs e = store_at-append [] a (i ++ (l ++ d)) bs refl (omega arith)

  fill_id :
      (bs : List ℕ)
      → length bs ≡ 4
      → store_at id_offset bs (a ++ (i ++ (l ++ d))) ≡ some (a ++ (bs ++ (l ++ d)))
  fill_id bs e = store_at-append a i (l ++ d) bs la (omega arith)

  fill_body :
      (bs : List ℕ)
      → length bs ≡ length d
      → store_at header_size bs (a ++ (i ++ (l ++ d))) ≡ some (a ++ (i ++ (l ++ bs)))
  fill_body bs e =
      rw (whole d, whole bs) (store_at-append (a ++ (i ++ l)) d [] bs lengths (omega arith))
    where
      whole : (xs : List ℕ) → a ++ (i ++ (l ++ xs)) ≡ (a ++ (i ++ l)) ++ (xs ++ [])
      whole xs = simp (append_assoc, append-nil)

      lengths : length (a ++ (i ++ l)) ≡ header_size
      lengths = omega (arith, length-append a (i ++ l), length-append i l)

-- The world in which the new block holds `b`, with `id` as the next number.
abbrev pub created : World → ℕ → List ℕ → World
created w id b = record w {
  message_id = id;
  next = suc w.next;
  cells = update w.cells w.next (some (block b));
}

pub created_again :
    (w : World) (id : ℕ) (b b' : List ℕ)
    → put_cell (created w id b) w.next (some (block b')) ≡ created w id b'
created_again w id b b' =
    ap (λ c. record w { message_id = id; next = suc w.next; cells = c })
      (update-update w.cells w.next (some (block b)) (some (block b')))

pub created_cell :
    (w : World) (id : ℕ) (b : List ℕ) → (created w id b).cells w.next ≡ some (block b)
created_cell w id b = ground arith

four_parts :
    (n : ℕ) (b : List ℕ)
    → length b ≡ header_size + n
    → (a : List ℕ) × (i : List ℕ) × (l : List ℕ) × (d : List ℕ) × (b ≡ a ++ (i ++ (l ++ d)))
      × (length a ≡ 4)
      × (length i ≡ 4)
      × (length l ≡ 4)
      × (length d ≡ n)
four_parts n b e =
    let (a, ild, ea, la, ma) = split_at 4 {n = 8 + n} b (omega arith) in
    let (i, ld, ei, li, mi) = split_at 4 {n = 4 + n} ild (omega arith) in
    let (l, d, el, ll, ml) = split_at 4 {n = n} ld (omega arith) in
    (a, i, l, d, ea ∙ ap (◌++◌ a) (ei ∙ ap (◌++◌ i) el), la, li, ll, ml)

module _ ⦃h : Host⦄ (n : ℕ) (small : n < 2 ^ 31) where
  pub len_field : n % 2 ^ 32 ≡ n
  len_field = omega arith

  pub count_size : n % h.size_mod ≡ n
  count_size = elim h.size_mod_cases [ inl e ↦ rw e (omega arith) | inr e ↦ rw e (omega arith) ]

  pub sum_fits : (n + header_size) % h.size_mod ≡ n + header_size
  sum_fits = elim h.size_mod_cases [ inl e ↦ rw e (omega arith) | inr e ↦ rw e (omega arith) ]

  pub msg_size : (header_size + n % h.size_mod) % h.size_mod % 2 ^ 32 ≡ header_size + n
  msg_size = elim h.size_mod_cases [ inl e ↦ rw e (omega arith) | inr e ↦ rw e (omega arith) ]

module _ ⦃h : Host⦄ (w : World) where
  after_memcpy :
      {A : Type 0} (id off n : ℕ) (src bs b b' : List ℕ) (k : M A)
      → load_at 0 n src ≡ some bs
      → store_at off bs b ≡ some b'
      → (memcpy (some w.next) off src n >> k) (created w id b) ≡ k (created w id b')
  after_memcpy id off n src bs b b' k l s =
      >>-some (memcpy (some w.next) off src n) k
        (memcpy_lem (created w id b) w.next off n src bs b b' (created_cell w id b) l s)
      ∙ ap k (created_again w id b b')

  after_store :
      {A : Type 0} (id off v : ℕ) (b b' : List ℕ) (k : M A)
      → store_at off (h.bytes32 v) b ≡ some b'
      → (store32 (some w.next) off v >> k) (created w id b) ≡ k (created w id b')
  after_store id off v b b' k s =
      >>-some (store32 (some w.next) off v) k
        (store32_lem (created w id b) w.next off v b b' (created_cell w id b) s)
      ∙ ap k (created_again w id b b')

  -- The header is written, whatever comes of the body.
  fill_header :
      (len count : ℕ) (body a i l d : List ℕ)
      → length a ≡ 4
      → length i ≡ 4
      → length l ≡ 4
      → write_message w.next len body count (created w w.message_id (a ++ (i ++ (l ++ d))))
        ≡ (memcpy (some w.next) header_size body count >> pure (some w.next))
            (created w ((w.message_id + 1) % 2 ^ 32) (raw_frame magic_num w.message_id len d))
  unfolding write_message new_message_id
  fill_header len count body a i l d la li ll =
      after_store w.message_id len_offset len _ _ _
        (fill_len a i l d la li ll (h.bytes32 len) (h.length-bytes32 len))
      ∙ after_store w.message_id 0 magic_num _ _ _ (
          fill_magic a i (h.bytes32 len) d la li (h.length-bytes32 len) (h.bytes32 magic_num)
            (h.length-bytes32 magic_num))
      ∙ after_store _ id_offset w.message_id _ _ _ (
          fill_id (h.bytes32 magic_num) i (h.bytes32 len) d (h.length-bytes32 magic_num) li
            (h.length-bytes32 len) (h.bytes32 w.message_id) (h.length-bytes32 w.message_id))

  fill :
      (n : ℕ) (body bs a i l d : List ℕ)
      → load_at 0 n body ≡ some bs
      → length bs ≡ n
      → length a ≡ 4
      → length i ≡ 4
      → length l ≡ 4
      → length d ≡ n
      → write_message w.next n body n (created w w.message_id (a ++ (i ++ (l ++ d))))
        ≡ some (some w.next, created w ((w.message_id + 1) % 2 ^ 32) (frame w.message_id bs))
  fill n body bs a i l d read ln la li ll ld =
      fill_header n n body a i l d la li ll
      ∙ after_memcpy _ header_size n body bs _ _ _ read (
          fill_body (h.bytes32 magic_num) (h.bytes32 w.message_id) (h.bytes32 n) d
            (h.length-bytes32 magic_num) (h.length-bytes32 w.message_id) (h.length-bytes32 n) bs
            (omega arith))
      ∙ rw ln

  -- For a size that an int can hold and that many readable bytes at `data`, the constructor cannot
  -- fail: the new block holds the message with the next number, whatever its bytes were before, and
  -- nothing else changes but the counter.
  pub create_lem :
      (n : ℕ) (body : List ℕ)
      → n < 2 ^ 31
      → n ≤ length body
      → create body (pos n) w
        ≡ some (
          some w.next,
          created w ((w.message_id + 1) % 2 ^ 32) (frame w.message_id (take n body)),
        )
  unfolding create
  create_lem n body small readable =
      let (a, i, l, d, e, la, li, ll, ld) =
        four_parts n (h.malloc w.next (header_size + n))
          (h.length-malloc w.next (header_size + n)) in
      rw (msg_size n small, len_field n small, count_size n small, e)
        (fill n body (take n body) a i l d (load_at_inside 0 n body (omega arith))
          (omega (arith, length-take n body)) la li ll ld)

  -- The size of the block for a size of -(k + 1).
  negative_size : ℕ → ℕ
  negative_size k = (header_size + (2 ^ 32 - suc k)) % 2 ^ 32

  negative_fill :
      (k len count : ℕ) (body b : List ℕ)
      → k < 2 ^ 31
      → 2 ^ 32 ≤ count
      → length b ≡ negative_size k
      → write_message w.next len body count (created w w.message_id b) ≡ none
  unfolding negative_size write_message
  negative_fill k len count body b small large e = elim (dec_lt k 12) [
    | yes under ↦ >>-none (store32 (some w.next) len_offset len) _ (
        store32_short (created w w.message_id b) w.next len_offset len b
          (created_cell w w.message_id b) (omega arith))
    | no over ↦
        let (a, i, l, d, parts, la, li, ll, ld) = four_parts (2 ^ 32 - suc k) b (omega arith) in
        let id = (w.message_id + 1) % 2 ^ 32 in
        let filled = raw_frame magic_num w.message_id len d in
        rw parts (
          fill_header len count body a i l d la li ll
          ∙ >>-none (memcpy (some w.next) header_size body count) (pure (some w.next)) (
              memcpy_too_long (created w id filled) w.next header_size count body filled
                (created_cell w id filled)
                (omega (arith, length-raw_frame magic_num w.message_id len d))))
  ]

  -- Where size_t has 64 bits, the constructor faults for every negative size that an int can hold.
  pub create_negative :
      (k : ℕ) (body : List ℕ) → h.size_mod ≡ 2 ^ 64 → k < 2 ^ 31 → create body (negsuc k) w ≡ none
  unfolding create negative_size
  create_negative k body wide small =
      negative_fill k _ _ body (h.malloc w.next _) small (rw wide (omega arith))
        (rw (h.length-malloc w.next _, wide) (omega arith))
