-- ===== src/Buffer.antt =====
-- AutoBuffer of the mars library (libs/mars/include/mars/comm/autobuffer.h declares it, and its
-- implementation is in the mars binary), as an interface: the bytes from Ptr(0) on, Length() of
-- them, and the write position.
use mars_wrapper.Prelude.{
  ℕ, ◌+◌, ◌≤◌, ◌≡◌, List, [], ◌++◌, length, take, drop, max, arith, ◌∙◌, append-nil, drop_all,
}

pub record AutoBuffer (Buffer : Type 0) : Type 0 where
  pub bytes : Buffer → List ℕ
  pub pos : Buffer → ℕ
  pub empty : Buffer
  -- Write(p, n) at the position, which moves on; Write(ESeekCur, p, n), which leaves it.
  pub write : Buffer → List ℕ → Buffer
  pub write_cur : Buffer → List ℕ → Buffer
  -- AllocWrite(n) makes room for n bytes at the position, and they count as content.
  pub alloc_write : Buffer → ℕ → Buffer
  -- Seek(0, ESeekStart)
  pub seek_start : Buffer → Buffer
  pub bytes-empty : bytes empty ≡ []
  pub pos-empty : pos empty ≡ 0
  pub bytes-write :
      (b : Buffer) (xs : List ℕ)
      → pos b ≤ length (bytes b)
      → bytes (write b xs) ≡ take (pos b) (bytes b) ++ (xs ++ drop (pos b + length xs) (bytes b))
  pub pos-write : (b : Buffer) (xs : List ℕ) → pos (write b xs) ≡ pos b + length xs
  pub bytes-write_cur :
      (b : Buffer) (xs : List ℕ)
      → pos b ≤ length (bytes b)
      → bytes (write_cur b xs)
        ≡ take (pos b) (bytes b) ++ (xs ++ drop (pos b + length xs) (bytes b))
  pub take-alloc_write :
      (b : Buffer) (n : ℕ) → take (length (bytes b)) (bytes (alloc_write b n)) ≡ bytes b
  pub length-alloc_write :
      (b : Buffer) (n : ℕ) → length (bytes (alloc_write b n)) ≡ max (length (bytes b)) (pos b + n)
  pub pos-alloc_write : (b : Buffer) (n : ℕ) → pos (alloc_write b n) ≡ pos b
  pub bytes-seek_start : (b : Buffer) → bytes (seek_start b) ≡ bytes b
  pub pos-seek_start : (b : Buffer) → pos (seek_start b) ≡ 0

-- A buffer that nothing has been written to.
pub record IsFresh {Buffer : Type 0} (ops : AutoBuffer Buffer) (b : Buffer) : Type 0 where
  pub no_bytes : ops.bytes b ≡ []
  pub at_start : ops.pos b ≡ 0

module _ {Buffer : Type 0} (ops : AutoBuffer Buffer) (b : Buffer) (xs : List ℕ) where
  -- A write at the start of a content that it covers.
  covers :
      (c : Buffer) {out : List ℕ}
      → ops.pos c ≡ 0
      → length (ops.bytes c) ≤ length xs
      → out ≡ take (ops.pos c) (ops.bytes c) ++ (xs ++ drop (ops.pos c + length xs) (ops.bytes c))
      → out ≡ xs
  covers c at_start short e =
      e ∙ rw (at_start, drop_all (ops.bytes c) {n = 0 + length xs} (omega arith)) (append-nil xs)

  pub write-IsFresh : IsFresh ops b → ops.bytes (ops.write b xs) ≡ xs
  write-IsFresh f =
      covers b f.at_start (rw f.no_bytes (omega arith))
        (ops.bytes-write b xs (rw f.at_start (omega arith)))

  pub write_cur-IsFresh : IsFresh ops b → ops.bytes (ops.write_cur b xs) ≡ xs
  write_cur-IsFresh f =
      covers b f.at_start (rw f.no_bytes (omega arith))
        (ops.bytes-write_cur b xs (rw f.at_start (omega arith)))

  alloc_write_start : IsFresh ops b → ops.pos (ops.alloc_write b (length xs)) ≡ 0
  alloc_write_start f = ops.pos-alloc_write b (length xs) ∙ f.at_start

  pub write-alloc_write-IsFresh :
      IsFresh ops b → ops.bytes (ops.write (ops.alloc_write b (length xs)) xs) ≡ xs
  write-alloc_write-IsFresh f =
      covers (ops.alloc_write b (length xs)) (alloc_write_start f) room
        (ops.bytes-write _ xs (rw (alloc_write_start f) (omega arith)))
    where
      room : length (ops.bytes (ops.alloc_write b (length xs))) ≤ length xs
      room = rw (ops.length-alloc_write b (length xs), f.no_bytes, f.at_start) (omega arith)
