-- ===== src/Longlink/Stream.antt =====
-- `longlink_unpack` on what has come so far of a stream of messages, against a decoder that is given
-- the fields of the first header and the bytes behind it.
use mars_wrapper.Prelude.{
  ℕ, ◌+◌, ◌<◌, ◌≡◌, ◌^◌, ◌∙◌, ap, List, some, arith, length, ltb, if◌then◌else◌, dec_lt,
}
use mars_wrapper.Host.{Host}
use mars_wrapper.Buffer.{AutoBuffer}
use mars_wrapper.Message.{header_size}
use mars_wrapper.Message.Frame.{raw_frame, length-raw_frame}
use mars_wrapper.Message.Header.{len_of, id_of, len_of-raw_frame, id_of-raw_frame}
use mars_wrapper.Message.Create.{sum_fits}
use mars_wrapper.Longlink.{
  UnpackResult, unpack_ok, unpack_false, unpack_continue, Out, longlink_unpack, max_package,
}
use mars_wrapper.Longlink.Packets.{
  announced, longlink_unpack_complete, longlink_unpack_partial, longlink_unpack_refused,
}

-- What is known of the first message of the stream: its number and the length of its body.
abbrev pub fields : ℕ → ℕ → Out
fields t len = record { cmdid = 0; seq = t; package_len = len + header_size; body_len = len }

-- By the length of the body that the header announces, and the bytes behind the header so far.
abbrev pub decode : ℕ → List ℕ → UnpackResult
decode len bs =
    if ltb max_package (len + header_size)
    then unpack_false
    else if ltb (length bs) len
    then unpack_continue
    else unpack_ok

module _ ⦃h : Host⦄ {Buffer : Type 0} (ops : AutoBuffer Buffer) where
  -- The body buffer after the call: all that has come is written to it if the message is complete.
  abbrev pub handed_on : UnpackResult → Buffer → List ℕ → Buffer
  handed_on unpack_ok inner bytes = ops.write_cur inner bytes
  handed_on unpack_false inner bytes = inner
  handed_on unpack_continue inner bytes = inner

  module _ (magic t len : ℕ) (bs : List ℕ) (packed inner : Buffer) (cmdid seq package_len : ℕ)
      (id_fits : t < 2 ^ 32) (small : len < 2 ^ 31)
      (same : ops.bytes packed ≡ raw_frame magic t len bs) where
    is_len : len_of (ops.bytes packed) ≡ len
    is_len = ap len_of same ∙ len_of-raw_frame magic t len bs (omega (arith, small))

    is_id : id_of (ops.bytes packed) ≡ t
    is_id = ap id_of same ∙ id_of-raw_frame magic t len bs id_fits

    is_announced : announced (ops.bytes packed) ≡ len + header_size
    is_announced = rw is_len (sum_fits len small)

    is_length : length (ops.bytes packed) ≡ header_size + length bs
    is_length = ap length same ∙ length-raw_frame magic t len bs

    read_fields :
        ◌≡◌ {A = Out}
          (record {
            cmdid = 0;
            seq = id_of (ops.bytes packed);
            package_len = announced (ops.bytes packed);
            body_len = len_of (ops.bytes packed);
          })
          (fields t len)
    read_fields =
        λ i. record { cmdid = 0; seq = is_id i; package_len = is_announced i; body_len = is_len i }

    -- What has come is a header with the number `t` below 2 ^ 32 and the length `len` below 2 ^ 31, of any
    -- magic number, and some bytes behind it, of this message and perhaps of the next ones. Then
    -- `longlink_unpack` decides as `decode` does by the length and the number of these bytes, tells the
    -- number and the lengths of the first message, and, if that is complete, writes all that has come to
    -- the body buffer, the bytes behind the message included.
    pub longlink_unpack-decode :
        longlink_unpack ops packed cmdid seq package_len inner
        ≡ some (decode len bs, fields t len, handed_on (decode len bs) inner (ops.bytes packed))
    longlink_unpack-decode = elim (dec_lt max_package (len + header_size)) [
      | yes large ↦
          longlink_unpack_refused ops packed cmdid seq package_len inner (omega (arith, is_length))
            (omega (arith, is_announced, large))
          ∙ ap (λ o. some (unpack_false, o, inner)) read_fields
          ∙ ground (arith, large)
      | no fits ↦ elim (dec_lt (length bs) len) [
        | yes part ↦
            longlink_unpack_partial ops packed cmdid seq package_len inner
              (omega (arith, is_length)) (omega (arith, is_announced, fits))
              (omega (arith, is_announced, is_length, part))
            ∙ ap (λ o. some (unpack_continue, o, inner)) read_fields
            ∙ ground (arith, fits, part)
        | no whole ↦
            longlink_unpack_complete ops packed cmdid seq package_len inner
              (omega (arith, is_length)) (omega (arith, is_announced, fits))
              (omega (arith, is_announced, is_length, whole))
            ∙ ap (λ o. some (unpack_ok, o, ops.write_cur inner (ops.bytes packed))) read_fields
            ∙ ground (arith, fits, whole)
      ]
    ]
