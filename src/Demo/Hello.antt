-- ===== src/Demo/Hello.antt =====
-- The demo program from its start to the end of its request.
use mars_wrapper.Prelude.{
  ℕ, ◌+◌, ◌≤◌, ◌<◌, ◌^◌, ◌≡◌, refl, ap, ◌∙◌, List, [], ◌∷◌, ◌++◌, none, some, arith, length, ◌==◌,
  if◌then◌else◌,
}
use mars_wrapper.Prelude.Int.{ℤ, pos}
use mars_wrapper.Host.{Host}
use mars_wrapper.Buffer.{AutoBuffer}
use mars_wrapper.Memory.{World, Call, initial, >>=-some}
use mars_wrapper.Message.{header_size}
use mars_wrapper.Message.Header.{len_of, body_of}
use mars_wrapper.Proxy.Owned.{Inv, pending, initial-Inv}
use mars_wrapper.Plus.{init, mars_config, send_message, register_push_listener}
use mars_wrapper.Shortlink.{c_str}
use mars_wrapper.Plus.Pending.{send_message-pending}
use mars_wrapper.Session.{Event, asks, responds, ends, view, model_step, model_run, run}
use mars_wrapper.Session.Refinement.{run-refines}
use mars_wrapper.Demo.{
  main, hello, push_handler, response_handler, printed, Line, response_received,
  message_send_failed, message_send_ok,
}

module _ ⦃h : Host⦄ where
  -- The world before `sendMessage`.
  prepared : List Call → World
  prepared calls = record initial { push_listener = some push_handler; log = calls }

  prepared-Inv : (calls : List Call) → Inv (prepared calls)
  unfolding prepared
  prepared-Inv calls = record {
    id_fits = initial-Inv.id_fits;
    unlocked = refl;
    fresh = λ p above. refl;
    owned = λ t ctx held. absurd (ground (arith, held));
  }

  init_lem :
      (calls : List Call) × (init (mars_config "39.106.56.27" 9001) initial
        ≡ some (pos 0, record initial { log = calls }))
      × (printed calls ≡ [])
  unfolding init
  init_lem = (_, refl, refl)

  -- After main, "hello" waits with the handler, and nothing was printed.
  sent_lem :
      (w : World) × (main initial ≡ some (pos 0, w))
      × Inv w
      × (pending w 10000 ≡ some (some response_handler, hello))
      × (printed w.log ≡ [])
  unfolding main prepared register_push_listener
  sent_lem =
      let (calls, started, quiet) = init_lem in
      let (w, sent, inv, waits, log, id, listeners) =
        send_message-pending (prepared-Inv calls) (hello ++ (0 ∷ [])) 5 (some response_handler)
          (omega arith) (omega arith) in
      (
        w,
        >>=-some (init (mars_config "39.106.56.27" 9001)) _ started
            ∙ >>=-some (send_message (hello ++ (0 ∷ [])) 5 (some response_handler)) _ sent,
        inv,
        waits 10000,
        ap printed log ∙ quiet,
      )

  module _ {Buffer : Type 0} (ops : AutoBuffer Buffer) where
    -- What the mars library does with the request: it asks for the bytes, gives those that came back, and
    -- reports the end.
    abbrev pub served : Buffer → Buffer → ℕ → ℤ → List (Event Buffer)
    served out packet error_type error_code =
        asks 10000 out ∷ responds 10000 packet ∷ ends 10000 error_type error_code ∷ []

    -- The last line that is printed.
    abbrev pub last_line : ℕ → ℤ → Line
    last_line error_type error_code =
        if error_type == 0 then message_send_ok else message_send_failed error_code

    printed_lem :
        (v : World) (w : World) (out packet : Buffer) (error_type : ℕ) (error_code : ℤ)
        → view v ≡ model_run ops (served out packet error_type error_code) (view w)
        → pending w 10000 ≡ some (some response_handler, hello)
        → printed w.log ≡ []
        → printed v.log
          ≡ last_line error_type error_code
            ∷ response_received (c_str (body_of (ops.bytes packet)))
            ∷ []
    unfolding model_run model_step
    printed_lem v w out packet error_type error_code same waits quiet =
        ap (λ m. printed m.calls) same ∙ ground (arith, waits, quiet)

    -- The demo's main, and then the mars library, which asks for the bytes of request 10000, is given a
    -- packet of fewer than 2 ^ 31 bytes with a whole header and all the bytes that it announces, and
    -- reports the end of the request: nothing faults, main answers 0, and the program prints the body of
    -- the packet, up to its first zero byte if it has one, then that the message was sent, or, if the end
    -- was an error, that it failed. Nothing waits under the number any more.
    pub main-served :
        (out packet : Buffer) (error_type : ℕ) (error_code : ℤ)
        → header_size + len_of (ops.bytes packet) ≤ length (ops.bytes packet)
        → length (ops.bytes packet) < 2 ^ 31
        → (w : World) × (v : World) × (main initial ≡ some (pos 0, w))
          × (run ops (served out packet error_type error_code) w ≡ some v)
          × (printed v.log
              ≡ last_line error_type error_code
                ∷ response_received (c_str (body_of (ops.bytes packet)))
                ∷ [])
          × (pending v 10000 ≡ none)
    unfolding model_run model_step
    main-served out packet error_type error_code inside small =
        let (w, started, inv, waits, quiet) = sent_lem in
        let (v, ran, _, same) =
          run-refines ops (served out packet error_type error_code) inv
            (tt, ((inside, small), (tt, tt))) in
        (
          w,
          v,
          started,
          ran,
          printed_lem v w out packet error_type error_code same waits quiet,
          ap (λ m. m.waiting 10000) same ∙ ground arith,
        )
