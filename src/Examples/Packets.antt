-- ===== src/Examples/Packets.antt =====
-- Packets on the wire, and the functions on received bytes.
use mars_wrapper.Prelude.{ℕ, ◌≡◌, refl, [], ◌∷◌, ◌++◌, none, some, true, arith}
use mars_wrapper.Prelude.Int.{pos, negsuc}
use mars_wrapper.Memory.{World, SameListeners, initial, on_response}
use mars_wrapper.Message.{magic_num, create}
use mars_wrapper.Message.Header.{len_of}
use mars_wrapper.Message.Create.{create_negative}
use mars_wrapper.Platform.{
  ListBuffer, little_endian, list_buffer, empty_buffer, empty_buffer-IsFresh, low_first,
}
use mars_wrapper.Proxy.Owned.{Inv, pending}
use mars_wrapper.Callback.{message_cmdid, req2buf, buf2resp, on_push}
use mars_wrapper.Callback.Response.{buf2resp_overrun}
use mars_wrapper.Callback.Push.{on_push_all, push_calls}
use mars_wrapper.Longlink.{unpack_ok, longlink_pack, longlink_unpack}
use mars_wrapper.Longlink.Packets.{Verdict, longlink_unpack-Verdict}
use mars_wrapper.Longlink.RoundTrip.{echo_round_trip}
use mars_wrapper.Longlink.Stream.{decode, fields, handed_on, longlink_unpack-decode}
use mars_wrapper.Message.Class.{im_message_class, transfer}
use mars_wrapper.Message.Transfer.{transfer_lem}
use mars_wrapper.Examples.{hi, echo, waiting_world, waiting_world-Inv, hi_waits}

echo_round_trip_example :
    (out' : ListBuffer) × (inner' : ListBuffer) × (v : World) × (req2buf list_buffer 10000
        empty_buffer waiting_world
      ≡ some ((true, out'), waiting_world))
    × (longlink_unpack list_buffer
          (longlink_pack list_buffer message_cmdid 10000 out' empty_buffer)
          0
          0
          0
          empty_buffer
        ≡ some
            (unpack_ok, record { cmdid = 0; seq = 10000; package_len = 14; body_len = 2 }, inner'))
    × (buf2resp list_buffer 10000 inner' waiting_world ≡ some (pos 0, v))
    × (v.log ≡ on_response 7 hi ∷ waiting_world.log)
echo_round_trip_example =
    echo_round_trip list_buffer waiting_world-Inv 10000 7 hi hi_waits (omega arith) (omega arith)
      empty_buffer empty_buffer empty_buffer empty_buffer-IsFresh empty_buffer-IsFresh
      empty_buffer-IsFresh

longlink_unpack-Verdict_example :
    Verdict list_buffer echo 1 2 3 empty_buffer
      (longlink_unpack list_buffer echo 1 2 3 empty_buffer)
longlink_unpack-Verdict_example = longlink_unpack-Verdict list_buffer echo 1 2 3 empty_buffer

-- The header of the echo with a length of 3, where two bytes follow.
abbrev longer_than_sent : ListBuffer
longer_than_sent = record {
  content = low_first magic_num ++ (low_first 10000 ++ (low_first 3 ++ hi));
  at = 0;
}

buf2resp_overrun_example : buf2resp list_buffer 10000 longer_than_sent waiting_world ≡ none
unfolding list_buffer len_of little_endian low_first
buf2resp_overrun_example =
    buf2resp_overrun list_buffer waiting_world-Inv 10000 longer_than_sent 7 hi hi_waits
      (omega arith) (omega arith) (omega arith)

on_push_all_example :
    (v : World) × (on_push list_buffer 0 10001 5 echo waiting_world ≡ some (tt, v))
    × Inv v
    × ((s : ℕ) → pending v s ≡ pending waiting_world s)
    × ((p : ℕ) → v.cells p ≡ waiting_world.cells p)
    × (v.message_id ≡ 10002)
    × (v.log ≡ push_calls none (list_buffer.bytes echo) ++ waiting_world.log)
    × SameListeners waiting_world v
unfolding list_buffer little_endian
on_push_all_example = on_push_all list_buffer waiting_world-Inv 0 10001 5 echo (omega arith)

create_negative_example : create hi (negsuc 2147483647) initial ≡ none
unfolding little_endian
create_negative_example = create_negative initial 2147483647 hi refl (omega arith)

-- A message of two bytes, and two bytes of the next one.
abbrev two_messages : ListBuffer
two_messages = record {
  content = low_first magic_num ++ (low_first 10000 ++ (low_first 2 ++ (hi ++ hi)));
  at = 0;
}

longlink_unpack-decode_example :
    longlink_unpack list_buffer two_messages 1 2 3 empty_buffer
    ≡ some (
      decode 2 (hi ++ hi),
      fields 10000 2,
      handed_on list_buffer (decode 2 (hi ++ hi)) empty_buffer (list_buffer.bytes two_messages),
    )
unfolding list_buffer little_endian low_first
longlink_unpack-decode_example =
    longlink_unpack-decode list_buffer magic_num 10000 2 (hi ++ hi) two_messages empty_buffer 1 2 3
      (omega arith) (omega arith) refl

transfer_lem_example :
    (v : World) × (transfer im_message_class hi (pos 2) initial ≡ some ((true, 10000, hi), v))
    × ((p : ℕ) → v.cells p ≡ none)
    × (v.message_id ≡ 10001)
    × (v.contexts ≡ initial.contexts)
    × (v.log ≡ [])
    × SameListeners initial v
transfer_lem_example =
    transfer_lem initial (omega arith) hi 2 (omega arith) (omega arith) (λ p above. refl)
