-- ===== src/Message/Frame.antt =====
-- The bytes of a message on the wire, and what its fields read.
use mars_wrapper.Prelude.{
  ℕ, ◌+◌, ◌≡◌, List, ◌++◌, some, arith, length, length-append, drop, drop-append, append_assoc, sym,
}
use mars_wrapper.Host.{Host}
use mars_wrapper.Memory.Range.{load_at, load_at-append, load_at_start, load_at-append_end}
use mars_wrapper.Message.{header_size, id_offset, len_offset, magic_num}

module _ ⦃h : Host⦄ where
  -- A header with any three fields, and what lies behind it.
  abbrev pub raw_frame : ℕ → ℕ → ℕ → List ℕ → List ℕ
  raw_frame magic id len rest = h.bytes32 magic ++ (h.bytes32 id ++ (h.bytes32 len ++ rest))

  -- The message that carries `body` under the number `id`.
  abbrev pub frame : ℕ → List ℕ → List ℕ
  frame id body = raw_frame magic_num id (length body) body

  pub length-raw_frame :
      (magic id len : ℕ) (rest : List ℕ)
      → length (raw_frame magic id len rest) ≡ header_size + length rest
  length-raw_frame magic id len rest = omega (
    arith,
    length-append (h.bytes32 magic) (h.bytes32 id ++ (h.bytes32 len ++ rest)),
    length-append (h.bytes32 id) (h.bytes32 len ++ rest),
    length-append (h.bytes32 len) rest,
    h.length-bytes32 magic,
    h.length-bytes32 id,
    h.length-bytes32 len,
  )

  module _ (magic id len : ℕ) (rest : List ℕ) where
    pub magic_at : load_at 0 4 (raw_frame magic id len rest) ≡ some (h.bytes32 magic)
    magic_at = load_at_start (h.bytes32 magic) _ (h.length-bytes32 magic)

    pub id_at : load_at id_offset 4 (raw_frame magic id len rest) ≡ some (h.bytes32 id)
    id_at =
        load_at-append (h.bytes32 magic) (h.bytes32 id) _ (h.length-bytes32 magic)
          (h.length-bytes32 id)

    regroup :
        raw_frame magic id len rest ≡ (h.bytes32 magic ++ h.bytes32 id) ++ (h.bytes32 len ++ rest)
    regroup = sym (append_assoc (h.bytes32 magic) (h.bytes32 id) _)

    two_fields : length (h.bytes32 magic ++ h.bytes32 id) ≡ 8
    two_fields = omega (
      arith,
      length-append (h.bytes32 magic) (h.bytes32 id),
      h.length-bytes32 magic,
      h.length-bytes32 id,
    )

    pub len_at : load_at len_offset 4 (raw_frame magic id len rest) ≡ some (h.bytes32 len)
    len_at = rw regroup (
        load_at-append (h.bytes32 magic ++ h.bytes32 id) (h.bytes32 len) rest two_fields
          (h.length-bytes32 len))

  regroup_all :
      (magic id len : ℕ) (rest : List ℕ)
      → raw_frame magic id len rest ≡ (h.bytes32 magic ++ (h.bytes32 id ++ h.bytes32 len)) ++ rest
  regroup_all magic id len rest = simp append_assoc

  header-length :
      (magic id len : ℕ) → length (h.bytes32 magic ++ (h.bytes32 id ++ h.bytes32 len)) ≡ header_size
  header-length magic id len = omega (
    arith,
    length-append (h.bytes32 magic) (h.bytes32 id ++ h.bytes32 len),
    length-append (h.bytes32 id) (h.bytes32 len),
    h.length-bytes32 magic,
    h.length-bytes32 id,
    h.length-bytes32 len,
  )

  pub body_at :
      (magic id len : ℕ) {n : ℕ} (body rest : List ℕ)
      → length body ≡ n
      → load_at header_size n (raw_frame magic id len (body ++ rest)) ≡ some body
  body_at magic id len body rest e =
      rw (regroup_all magic id len (body ++ rest))
        (load_at-append _ body rest (header-length magic id len) e)

  pub body_at_end :
      (magic id len : ℕ) {n : ℕ} (body : List ℕ)
      → length body ≡ n
      → load_at header_size n (raw_frame magic id len body) ≡ some body
  body_at_end magic id len body e =
      rw (regroup_all magic id len body) (load_at-append_end _ body (header-length magic id len) e)

  pub drop-frame : (id : ℕ) (body : List ℕ) → drop header_size (frame id body) ≡ body
  drop-frame id body =
      rw (regroup_all magic_num id (length body) body)
        (drop-append _ body (header-length magic_num id (length body)))
