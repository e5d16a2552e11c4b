-- ===== src/Longlink/Packets.antt =====
-- How `longlink_unpack` judges the bytes received.
use mars_wrapper.Prelude.{
  ℕ, ◌+◌, ◌≤◌, ◌<◌, ◌≡◌, ◌≢◌, ◌%◌, ◌∙◌, inl, inr, ◌⊎◌, Option, dec_lt, ℕ_discrete, List, none, some,
  arith, length,
}
use mars_wrapper.Host.{Host}
use mars_wrapper.Buffer.{AutoBuffer}
use mars_wrapper.Memory.Range.{load_at_short}
use mars_wrapper.Message.{header_size, len_offset}
use mars_wrapper.Message.Header.{len_of, id_of, load_at-len_of, load_at-id_of}
use mars_wrapper.Task.{noop_task_id}
use mars_wrapper.Longlink.{
  UnpackResult, unpack_ok, unpack_false, unpack_continue, Out, unpack_test, classify,
  longlink_unpack, max_package, unpacked,
}

module _ ⦃h : Host⦄ (packed : List ℕ) (out : Out) where
  -- With a whole header, the judgement is that of the two fields.
  pub unpack_test-header :
      header_size ≤ length packed
      → unpack_test packed out ≡ some (classify packed (id_of packed) (len_of packed) out)
  unfolding unpack_test
  unpack_test-header whole =
      let (is, read_id, is_id) = load_at-id_of packed whole in
      let (ls, read_len, is_len) = load_at-len_of packed whole in
      ground (arith, read_id, is_id, read_len, is_len)

  -- Part of a header, other than four bytes: the fields are read past the bytes received.
  pub unpack_test_overread :
      length packed < header_size → length packed ≢ 4 → unpack_test packed out ≡ none
  unfolding unpack_test
  unpack_test_overread part odd = ground (arith, load_at_short len_offset 4 packed part)

  pub unpack_test_four :
      length packed ≡ 4
      → unpack_test packed out
        ≡ some (unpack_ok, record out { seq = noop_task_id; package_len = 4 })
  unfolding unpack_test
  unpack_test_four four = ground arith

-- The length that a header announces, as a size_t.
abbrev pub announced : ⦃h : Host⦄ → List ℕ → ℕ
announced ⦃h⦄ packed = (len_of packed + header_size) % h.size_mod

module _ ⦃h : Host⦄ {Buffer : Type 0} (ops : AutoBuffer Buffer) (packed : Buffer)
    (cmdid seq package_len : ℕ) (body : Buffer) where
  abbrev bytes : List ℕ
  bytes = ops.bytes packed

  abbrev read : Out
  read = record {
    cmdid = 0;
    seq = id_of bytes;
    package_len = announced bytes;
    body_len = len_of bytes;
  }

  abbrev before : Out
  before = record { cmdid = cmdid; seq = seq; package_len = package_len; body_len = 0 }

  -- What the call answers with, for every number of bytes received: with a whole header, a packet of
  -- more than 1 MiB is refused, one that is not complete is waited for, and otherwise all the bytes
  -- are handed on; four bytes are a heartbeat whatever they are; with any other part of a header the
  -- fields are read past the bytes.
  abbrev pub Verdict : Option (UnpackResult × Out × Buffer) → Type 0
  Verdict r =
      ((header_size ≤ length bytes)
        × (max_package < announced bytes)
        × (r ≡ some (unpack_false, read, body)))
      ⊎ ((header_size ≤ length bytes)
          × (announced bytes ≤ max_package)
          × (length bytes < announced bytes)
          × (r ≡ some (unpack_continue, read, body)))
      ⊎ ((header_size ≤ length bytes)
          × (announced bytes ≤ max_package)
          × (announced bytes ≤ length bytes)
          × (r ≡ some (unpack_ok, read, ops.write_cur body bytes)))
      ⊎ ((length bytes ≡ 4)
          × (r
              ≡ some (
                unpack_ok,
                record before { seq = noop_task_id; package_len = 4 },
                ops.write_cur body bytes,
              )))
      ⊎ ((length bytes < header_size) × (length bytes ≢ 4) × (r ≡ none))

  abbrev result : Option (UnpackResult × Out × Buffer)
  result = longlink_unpack ops packed cmdid seq package_len body

  whole_header :
      header_size ≤ length bytes
      → result
        ≡ some (unpacked ops packed body (classify bytes (id_of bytes) (len_of bytes) before))
  unfolding longlink_unpack
  whole_header whole = rw (unpack_test-header bytes before whole, longlink_unpack)

  four_bytes :
      length bytes ≡ 4
      → result
        ≡ some (
          unpack_ok,
          record before { seq = noop_task_id; package_len = 4 },
          ops.write_cur body bytes,
        )
  unfolding longlink_unpack
  four_bytes four = rw (unpack_test_four bytes before four, longlink_unpack)

  other_part : length bytes < header_size → length bytes ≢ 4 → result ≡ none
  unfolding longlink_unpack
  other_part part odd = rw (unpack_test_overread bytes before part odd, longlink_unpack)

  judged :
      header_size ≤ length bytes
      → let r =
          some (unpacked ops packed body (classify bytes (id_of bytes) (len_of bytes) before)) in
        Verdict r
  unfolding classify unpacked
  judged whole = ground arith

  pub longlink_unpack_complete :
      header_size ≤ length bytes
      → announced bytes ≤ max_package
      → announced bytes ≤ length bytes
      → result ≡ some (unpack_ok, read, ops.write_cur body bytes)
  unfolding classify unpacked
  longlink_unpack_complete whole fits there = whole_header whole ∙ ground arith

  pub longlink_unpack_partial :
      header_size ≤ length bytes
      → announced bytes ≤ max_package
      → length bytes < announced bytes
      → result ≡ some (unpack_continue, read, body)
  unfolding classify unpacked
  longlink_unpack_partial whole fits part = whole_header whole ∙ ground arith

  pub longlink_unpack_refused :
      header_size ≤ length bytes
      → max_package < announced bytes
      → result ≡ some (unpack_false, read, body)
  unfolding classify unpacked
  longlink_unpack_refused whole large = whole_header whole ∙ ground arith

  -- For any bytes received, `longlink_unpack` gives the one result that `Verdict` lists for them. With a
  -- whole header, a packet that is announced to be longer than 1 MiB is refused, one that is not
  -- complete is waited for, and otherwise all the bytes received are written to the body buffer. Four
  -- bytes are a heartbeat, whatever they are. With any other part of a header the call reads past the
  -- bytes received, which is a fault.
  pub longlink_unpack-Verdict : Verdict result
  longlink_unpack-Verdict = elim (dec_lt (length bytes) header_size) [
    | no whole ↦ rw (whole_header (omega arith)) (judged (omega arith))
    | yes part ↦ elim (ℕ_discrete (length bytes) 4) [
      | yes four ↦ inr (inr (inr (inl (four, four_bytes four))))
      | no odd ↦ inr (inr (inr (inr (part, odd, other_part part odd))))
    ]
  ]
