-- ===== src/Longlink/RoundTrip.antt =====
-- A request and its echo, through the functions that the mars library calls for a task in turn:
-- `Req2Buf`, `longlink_pack`, `longlink_unpack` and `Buf2Resp`.
use mars_wrapper.Prelude.{
  ℕ, ◌+◌, ◌≤◌, ◌<◌, ◌≡◌, ◌≢◌, ◌^◌, ◌∙◌, ap, List, ◌∷◌, some, true, arith, length,
}
use mars_wrapper.Prelude.Int.{pos}
use mars_wrapper.Host.{Host}
use mars_wrapper.Buffer.{AutoBuffer, IsFresh, write_cur-IsFresh}
use mars_wrapper.Memory.{World, on_response}
use mars_wrapper.Message.{header_size, magic_num}
use mars_wrapper.Message.Frame.{frame, length-raw_frame}
use mars_wrapper.Message.Header.{
  len_of, id_of, body_of, len_of-raw_frame, id_of-raw_frame, body_of-frame,
}
use mars_wrapper.Proxy.Owned.{Inv, pending}
use mars_wrapper.Task.{noop_task_id}
use mars_wrapper.Callback.{req2buf, buf2resp, message_cmdid}
use mars_wrapper.Callback.Request.{req2buf-pending}
use mars_wrapper.Callback.Response.{buf2resp-pending}
use mars_wrapper.Callback.TaskEnd.{id_of_pending}
use mars_wrapper.Message.Create.{sum_fits}
use mars_wrapper.Longlink.{Out, unpack_ok, longlink_pack, longlink_unpack, max_package}
use mars_wrapper.Longlink.Pack.{longlink_pack_task}
use mars_wrapper.Longlink.Packets.{longlink_unpack_complete, announced}

module _ ⦃h : Host⦄ {Buffer : Type 0} (ops : AutoBuffer Buffer) where
  -- Received bytes that are exactly one message, of at most 1 MiB with its header and with a number
  -- below 2 ^ 32, are found complete, with that number, the length of the body and of the whole; a
  -- buffer that was fresh then holds the message.
  pub longlink_unpack-frame :
      (t : ℕ) (body : List ℕ) (packed inner : Buffer) (cmdid seq package_len : ℕ)
      → t < 2 ^ 32
      → length body + header_size ≤ max_package
      → ops.bytes packed ≡ frame t body
      → IsFresh ops inner
      → (inner' : Buffer) × (longlink_unpack ops packed cmdid seq package_len inner
          ≡ some (
            unpack_ok,
            record {
              cmdid = 0;
              seq = t;
              package_len = length body + header_size;
              body_len = length body;
            },
            inner',
          ))
        × (ops.bytes inner' ≡ frame t body)
  longlink_unpack-frame t body packed inner cmdid seq package_len id_fits fits same fresh = (
    ops.write_cur inner (ops.bytes packed),
    longlink_unpack_complete ops packed cmdid seq package_len inner (omega (arith, is_length))
          (rw is_announced fits) (omega (arith, is_length, is_announced))
        ∙ ap (λ o. some (unpack_ok, o, ops.write_cur inner (ops.bytes packed))) fields,
    write_cur-IsFresh ops inner (ops.bytes packed) fresh ∙ same,
  )
    where
      is_len : len_of (ops.bytes packed) ≡ length body
      is_len = ap len_of same ∙ len_of-raw_frame magic_num t (length body) body (omega arith)

      is_id : id_of (ops.bytes packed) ≡ t
      is_id = ap id_of same ∙ id_of-raw_frame magic_num t (length body) body id_fits

      is_announced : announced (ops.bytes packed) ≡ length body + header_size
      is_announced = rw is_len (sum_fits (length body) (omega arith))

      is_length : length (ops.bytes packed) ≡ header_size + length body
      is_length = ap length same ∙ length-raw_frame magic_num t (length body) body

      fields :
          ◌≡◌ {A = Out}
            (record {
              cmdid = 0;
              seq = id_of (ops.bytes packed);
              package_len = announced (ops.bytes packed);
              body_len = len_of (ops.bytes packed);
            })
            (record {
              cmdid = 0;
              seq = t;
              package_len = length body + header_size;
              body_len = length body;
            })
      fields = λ i. record {
        cmdid = 0;
        seq = is_id i;
        package_len = is_announced i;
        body_len = is_len i;
      }

  module _ {w : World} (inv : Inv w) (t : ℕ) (callback : ℕ) (body : List ℕ) where
    -- The same packet, given to the response callback.
    hears :
        pending w t ≡ some (some callback, body)
        → length body + header_size ≤ max_package
        → (packet : Buffer) → ops.bytes packet ≡ frame t body
        → (v : World) × (buf2resp ops t packet w ≡ some (pos 0, v))
          × (v.log ≡ on_response callback body ∷ w.log)
    hears waits fits packet same =
        let (v, answered, _, _, _, log, _, _) =
          buf2resp-pending ops inv t packet callback body waits (omega (arith, is_len, is_length))
            (omega (arith, is_length)) in
        (v, answered, log ∙ ap (λ b. on_response callback b ∷ w.log) is_body)
      where
        is_len : len_of (ops.bytes packet) ≡ length body
        is_len = ap len_of same ∙ len_of-raw_frame magic_num t (length body) body (omega arith)

        is_length : length (ops.bytes packet) ≡ header_size + length body
        is_length = ap length same ∙ length-raw_frame magic_num t (length body) body

        is_body : body_of (ops.bytes packet) ≡ body
        is_body = ap body_of same ∙ body_of-frame t body (omega arith)

    -- A request with a listener that waits in well-formed memory, under a number that is not the
    -- heartbeat's, and that fits 1 MiB with its header: what `Req2Buf` gives for it, framed, is found
    -- complete under the request's own number when the same bytes are received, and `Buf2Resp` answers 0
    -- and lets its listener hear exactly the body that was sent, as the one call made. The three buffers
    -- are fresh.
    pub echo_round_trip :
        pending w t ≡ some (some callback, body)
        → t ≢ noop_task_id
        → length body + header_size ≤ max_package
        → (out packed inner : Buffer) → IsFresh ops out
        → IsFresh ops packed
        → IsFresh ops inner
        → (out' : Buffer) × (inner' : Buffer) × (v : World) × (req2buf ops t out w
            ≡ some ((true, out'), w))
          × (longlink_unpack ops (longlink_pack ops message_cmdid t out' packed) 0 0 0 inner
              ≡ some (
                unpack_ok,
                record {
                  cmdid = 0;
                  seq = t;
                  package_len = length body + header_size;
                  body_len = length body;
                },
                inner',
              ))
          × (buf2resp ops t inner' w ≡ some (pos 0, v))
          × (v.log ≡ on_response callback body ∷ w.log)
    echo_round_trip waits other fits out packed inner fresh_out fresh_packed fresh_inner =
        let (out', sent, bytes_out) =
          req2buf-pending ops inv t (some callback) body waits out fresh_out in
        let wire = longlink_pack ops message_cmdid t out' packed in
        let on_wire =
          longlink_pack_task ops message_cmdid t out' packed fresh_packed other ∙ bytes_out in
        let (inner', read, bytes_in) =
          longlink_unpack-frame t body wire inner 0 0 0 (id_of_pending inv waits) fits on_wire
            fresh_inner in
        let (v, answered, log) = hears waits fits inner' bytes_in in
        (out', inner', v, sent, read, answered, log)
