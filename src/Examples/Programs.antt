-- ===== src/Examples/Programs.antt =====
-- The demo programs at concrete inputs.
use mars_wrapper.Prelude.{
  ℕ, zero, suc, ◌≡◌, ◌≢◌, refl, List, [], ◌∷◌, none, some, arith, replicate, length-replicate,
  Lacks,
}
use mars_wrapper.Prelude.Int.{pos, negsuc}
use mars_wrapper.Host.{network_bytes}
use mars_wrapper.Memory.{World, initial}
use mars_wrapper.Message.Header.{len_of, body_of}
use mars_wrapper.Proxy.Owned.{pending}
use mars_wrapper.Platform.{little_endian, list_buffer, empty_buffer}
use mars_wrapper.Session.{run}
use mars_wrapper.Shortlink.{c_str}
use mars_wrapper.Demo
use mars_wrapper.Demo.{printed, response_received, message_send_ok}
use mars_wrapper.Demo.Hello.{served, main-served}
use mars_wrapper.Client
use mars_wrapper.Client.{
  ClientState, Net, TcpClient, MainAnswers, Answers, Received, got, Printed, line, reply,
  new_client, destroy_client, send_int, port_of, print_reply, until_zero,
}
use mars_wrapper.Client.Sockets.{
  Method, calls_connect, calls_send, all_shut, all_opened, apply_all, destroy_client-apply_all,
  send_int_lem,
}
use mars_wrapper.Client.Main.{main_full_reply}
use mars_wrapper.Examples.{hi, echo}

main-served_example :
    (w : World) × (v : World) × (Demo.main initial ≡ some (pos 0, w))
    × (run list_buffer (served list_buffer empty_buffer echo 0 (pos 0)) w ≡ some v)
    × (printed v.log
        ≡ message_send_ok ∷ response_received (c_str (body_of (list_buffer.bytes echo))) ∷ [])
    × (pending v 10000 ≡ none)
unfolding list_buffer len_of little_endian
main-served_example =
    main-served list_buffer empty_buffer echo 0 (pos 0) (omega arith) (omega arith)

abbrev net : Net
net = record { inet_addr = λ s. 0x7f000001; htons = λ p. p; atoi = λ s. pos 8080 }

abbrev tried_twice : List Method
tried_twice =
    calls_connect (record { socket_result = pos 3; connect_result = negsuc 0 })
    ∷ calls_connect (record { socket_result = pos 4; connect_result = pos 0 })
    ∷ calls_send hi
    ∷ []

abbrev after_twice : ClientState
after_twice = destroy_client (apply_all net tried_twice (new_client hi 8080, []))

destroy_client-apply_all_example : all_shut (after_twice.1) ≡ all_opened (after_twice.1)
destroy_client-apply_all_example = destroy_client-apply_all net hi 8080 tried_twice

send_int_lem_example :
    send_int 5 (new_client hi 8080, [])
    ≡ (new_client hi 8080, Client.sends (pos 0) (network_bytes 5) ∷ [])
send_int_lem_example = send_int_lem 5 (new_client hi 8080) [] (omega arith)

abbrev refused : MainAnswers
refused = record {
  connecting = record { socket_result = pos 3; connect_result = negsuc 0 };
  length_result = pos 4;
  send_result = pos 2;
  received = got (b'o' ∷ b'k' ∷ 0 ∷ []);
  server_reply = replicate 2000 0;
}

replicate-Lacks : (n c : ℕ) → c ≢ 0 → Lacks 0 (replicate n c)
replicate-Lacks zero c other = tt
replicate-Lacks (suc n) c other = (other, replicate-Lacks n c other)

abbrev flooded : MainAnswers
flooded = record refused { received = got (replicate 2000 b'x') }

main_full_reply_example : Client.main net flooded hi [] hi ≡ none
main_full_reply_example =
    main_full_reply net flooded hi [] hi (replicate 2000 b'x') refl
      (length-replicate {A = ℕ} 2000 0) (length-replicate {A = ℕ} 2000 b'x')
      (replicate-Lacks 2000 b'x' (omega arith))
