-- ===== src/Memory/Access.antt =====
-- What each access does to a world in which the block, or the object, is known.
use mars_wrapper.Prelude.{ℕ, ◌≡◌, List, none, some, arith, length, ◌<◌, ◌+◌, inl, inr, Option-cases}
use mars_wrapper.Host.{Host}
use mars_wrapper.Memory.Range.{load_at, store_at, load_at_all, store_at_short, length-load_at}
use mars_wrapper.Memory.{
  World, block, im_message, task_context, TaskContext, Pointer, put_cell, read_block, read_message,
  read_context, free, delete_context, memcpy, load32, store32,
}

module _ (w : World) (p : ℕ) where
  pub read_block_lem :
      (b : List ℕ) → w.cells p ≡ some (block b) → read_block (some p) w ≡ some (b, w)
  unfolding read_block
  read_block_lem b e = ground arith

  pub read_message_lem :
      (m : Pointer) → w.cells p ≡ some (im_message m) → read_message (some p) w ≡ some (m, w)
  unfolding read_message
  read_message_lem m e = ground arith

  pub read_context_lem :
      (c : TaskContext) → w.cells p ≡ some (task_context c) → read_context (some p) w ≡ some (c, w)
  unfolding read_context
  read_context_lem c e = ground arith

  pub free_lem :
      (b : List ℕ) → w.cells p ≡ some (block b) → free (some p) w ≡ some (tt, put_cell w p none)
  unfolding free
  free_lem b e = ground arith

  pub delete_context_lem :
      (c : TaskContext)
      → w.cells p ≡ some (task_context c)
      → delete_context (some p) w ≡ some (tt, put_cell w p none)
  unfolding delete_context
  delete_context_lem c e = ground arith

  pub memcpy_lem :
      (off n : ℕ) (src chunk b b' : List ℕ)
      → w.cells p ≡ some (block b)
      → load_at 0 n src ≡ some chunk
      → store_at off chunk b ≡ some b'
      → memcpy (some p) off src n w ≡ some (tt, put_cell w p (some (block b')))
  unfolding memcpy
  memcpy_lem off n src chunk b b' e l s = ground arith

  pub memcpy_short :
      (off n : ℕ) (src chunk b : List ℕ)
      → w.cells p ≡ some (block b)
      → load_at 0 n src ≡ some chunk
      → store_at off chunk b ≡ none
      → memcpy (some p) off src n w ≡ none
  unfolding memcpy
  memcpy_short off n src chunk b e l s = ground arith

  pub load32_lem :
      ⦃h : Host⦄
      → (off : ℕ) (b bs : List ℕ) → w.cells p ≡ some (block b)
      → load_at off 4 b ≡ some bs
      → load32 (some p) off w ≡ some (h.value32 bs, w)
  unfolding load32
  load32_lem off b bs e l = ground arith

  pub load32_short :
      ⦃h : Host⦄
      → (off : ℕ) (b : List ℕ) → w.cells p ≡ some (block b)
      → load_at off 4 b ≡ none
      → load32 (some p) off w ≡ none
  unfolding load32
  load32_short off b e l = ground arith

  pub store32_lem :
      ⦃h : Host⦄
      → (off v : ℕ) (b b' : List ℕ) → w.cells p ≡ some (block b)
      → store_at off (h.bytes32 v) b ≡ some b'
      → store32 (some p) off v w ≡ some (tt, put_cell w p (some (block b')))
  unfolding store32
  store32_lem ⦃h⦄ off v b b' e s =
      memcpy_lem off 4 (h.bytes32 v) (h.bytes32 v) b b' e
        (load_at_all (h.bytes32 v) (h.length-bytes32 v)) s

  -- More bytes than the block has room for.
  pub memcpy_too_long :
      (off n : ℕ) (src b : List ℕ)
      → w.cells p ≡ some (block b)
      → length b < off + n
      → memcpy (some p) off src n w ≡ none
  unfolding memcpy
  memcpy_too_long off n src b e short = elim (Option-cases (load_at 0 n src)) [
    | inl missing ↦ ground arith
    | inr (chunk, read) ↦
        memcpy_short off n src chunk b e read
          (store_at_short off chunk b (omega (arith, length-load_at 0 n src read)))
  ]

  pub store32_short :
      ⦃h : Host⦄
      → (off v : ℕ) (b : List ℕ) → w.cells p ≡ some (block b)
      → length b < off + 4
      → store32 (some p) off v w ≡ none
  unfolding store32
  store32_short ⦃h⦄ off v b e short = memcpy_too_long off 4 (h.bytes32 v) b e short
