-- ===== src/Message/Class.antt =====
-- The class ImMessage of src/im_message.h as an interface, the functions of src/im_message.cpp as what
-- fills it, and a program that uses nothing but the class: one side makes a message and hands its bytes
-- to the other, which reads them.
use mars_wrapper.Prelude.{ℕ, List, Bool}
use mars_wrapper.Prelude.Int.{ℤ, to_int}
use mars_wrapper.Host.{Host}
use mars_wrapper.Memory.{Pointer, M, pure, ◌>>=◌, ◌>>◌, read_block}
use mars_wrapper.Message.{
  create, default_message, destroy, new_message_id, get_data, get_message, get_message_size,
  is_valid, get_message_id, parse,
}

-- An object is its `m_message`, and the counter of the numbers is in the state.
pub record ImMessage : Type 0 where
  pub construct : List ℕ → ℤ → M Pointer
  pub construct_empty : Pointer
  pub destruct : Pointer → M (Unit {0})
  pub new_message_id : M ℕ
  pub get_data : Pointer → M (List ℕ)
  pub get_message : Pointer → Pointer
  pub get_message_size : Pointer → M ℕ
  pub is_valid : Pointer → M Bool
  pub get_message_id : Pointer → M ℕ
  pub parse : Pointer → List ℕ → ℤ → M (Bool × Pointer)

abbrev pub im_message_class : ⦃h : Host⦄ → ImMessage
im_message_class = record {
  construct = create;
  construct_empty = default_message;
  destruct = destroy;
  new_message_id = new_message_id;
  get_data = get_data;
  get_message = get_message;
  get_message_size = get_message_size;
  is_valid = is_valid;
  get_message_id = get_message_id;
  parse = parse;
}

-- What the receiver answers to `parse`, and the number and the body that it reads.
unfoldable pub transfer : ImMessage → List ℕ → ℤ → M (Bool × ℕ × List ℕ)
transfer c body size = do
  sent ← c.construct body size
  n ← c.get_message_size sent
  bytes ← read_block (c.get_message sent)
  received ← c.parse c.construct_empty bytes (to_int n)
  id ← c.get_message_id received.1
  body_read ← c.get_data received.1
  c.destruct received.1
  c.destruct sent
  pure (received.0, id, body_read)
