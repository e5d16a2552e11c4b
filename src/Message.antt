-- ===== src/Message.antt =====
-- src/im_message.h and src/im_message.cpp: the message that client and server exchange, a packed
-- header of three uint32_t (magicNum, messageId, len) and the body behind it. A message object is
-- its `m_message` pointer.
pub mod Frame
pub mod Header
pub mod Create
pub mod Parse
pub mod Class
pub mod Transfer
pub mod Counter
use mars_wrapper.Prelude.{ℕ, ◌+◌, ◌%◌, ◌^◌, List, Bool, false, none, some, ◌==◌}
use mars_wrapper.Prelude.Int.{ℤ, to_unsigned}
use mars_wrapper.Host.{Host}
use mars_wrapper.Memory.Range.{load_at}
use mars_wrapper.Memory.{
  World, Pointer, M, pure, ◌>>=◌, ◌>>◌, lift, malloc, read_block, free, memcpy, load32, store32,
}

-- sizeof(ImMessage::MessageFormat), and the offsets of its fields.
abbrev pub header_size : ℕ
header_size = 12

abbrev pub magic_offset : ℕ
magic_offset = 0

abbrev pub id_offset : ℕ
id_offset = 4

abbrev pub len_offset : ℕ
len_offset = 8

abbrev pub magic_num : ℕ
magic_num = 0xdeadbeaf

unfoldable pub new_message_id : M ℕ
new_message_id w = some (w.message_id, record w { message_id = (w.message_id + 1) % 2 ^ 32 })

module _ ⦃h : Host⦄ where
  -- The body of the constructor once the block is there: `len` is the value for the header's field,
  -- and `count` is `size` as the size_t that `memcpy` takes.
  unfoldable pub write_message : ℕ → ℕ → List ℕ → ℕ → M Pointer
  unfolding new_message_id
  write_message p len body count = do
    store32 (some p) len_offset len
    store32 (some p) magic_offset magic_num
    id ← new_message_id
    store32 (some p) id_offset id
    memcpy (some p) header_size body count
    pure (some p)

  -- ImMessage(const char *data, const int size)
  unfoldable pub create : List ℕ → ℤ → M Pointer
  create body size = do
    let msg_size = (header_size + to_unsigned h.size_mod size) % h.size_mod % 2 ^ 32
    p ← malloc msg_size
    write_message p (to_unsigned (2 ^ 32) size) body (to_unsigned h.size_mod size)

  unfoldable pub get_data : Pointer → M (List ℕ)
  get_data m = do len ← load32 m len_offset; b ← read_block m; lift (load_at header_size len b)

  unfoldable pub get_message_size : Pointer → M ℕ
  get_message_size m = do
    len ← load32 m len_offset
    pure ((len + header_size) % h.size_mod % 2 ^ 32)

  unfoldable pub is_valid : Pointer → M Bool
  is_valid m = do magic ← load32 m magic_offset; pure (magic == magic_num)

  unfoldable pub get_message_id : Pointer → M ℕ
  get_message_id m = load32 m id_offset

  -- The result, and the new `m_message`.
  unfoldable pub parse : Pointer → List ℕ → ℤ → M (Bool × Pointer)
  parse (some m) msg size = pure (false, some m)
  parse none msg size = do
    p ← malloc (to_unsigned h.size_mod size)
    memcpy (some p) 0 msg (to_unsigned h.size_mod size)
    magic ← load32 (some p) magic_offset
    pure (magic == magic_num, some p)

-- ImMessage()
abbrev pub default_message : Pointer
default_message = none

-- ~ImMessage()
unfoldable pub destroy : Pointer → M (Unit {0})
destroy none w = some (tt, w)
destroy (some m) w = free (some m) w

-- The address of the serialised message.
abbrev pub get_message : Pointer → Pointer
get_message m = m
