-- ===== src/Examples/Echoes.antt =====
-- A client of the echo server, connected as the socket 9, at concrete inputs.
use mars_wrapper.Prelude.{
  ℕ, List, sym, subst, ℕ_discrete, ◌≡◌, ◌≢◌, refl, inr, [], ◌∷◌, none, some, arith, replicate,
  length-replicate, ◌==◌, if◌then◌else◌,
}
use mars_wrapper.Echo.{
  echo_handler, Listener, Events, Answers, failed, dispatch, handle_all, server_handler,
}
use mars_wrapper.Echo.Receive.{only_in, only_out, arrives, IsConnected}
use mars_wrapper.Echo.Cycle.{cycles, echoed, Fits}
use mars_wrapper.Echo.Client.{Happening, events_of, actions_of}
use mars_wrapper.Echo.Clients.{handle_all-clients}
use mars_wrapper.Echo.End.{dispatch_full, dispatch_end}

abbrev connected : Listener
connected = record {
  handlers = λ fd.
      if fd == 9
      then some (echo_handler (record { fd = 9; received = none; buffer = replicate 1000 0xcd }))
      else if fd == 3
      then some server_handler
      else none;
  actions = [];
}

connected-IsConnected : IsConnected connected 9
connected-IsConnected = record {
  received = none;
  buffer = replicate 1000 0xcd;
  held = refl;
  sized = length-replicate {A = ℕ} 1000 0xcd;
}

-- Two clients: while the answer to 9 is still to be sent, the data of 8 comes.
abbrev both : Listener
both = record {
  handlers = λ fd.
      if fd == 8
      then some (echo_handler (record { fd = 8; received = none; buffer = replicate 1000 0xcd }))
      else connected.handlers fd;
  actions = [];
}

abbrev chunks : ℕ → List (List ℕ)
chunks c = if c == 9 then (b'h' ∷ b'i' ∷ []) ∷ [] else if c == 8 then (b'!' ∷ []) ∷ [] else []

abbrev mixed : List Happening
mixed =
    (9, only_in, arrives (b'h' ∷ b'i' ∷ []))
    ∷ (8, only_in, arrives (b'!' ∷ []))
    ∷ (9, only_out, arrives [])
    ∷ (8, only_out, arrives [])
    ∷ []

module _ {P : ℕ → Type 0} (nine : P 9) (eight : P 8)
    (else_where : (c : ℕ) → c ≢ 9 → c ≢ 8 → P c) where
  by_client : (c : ℕ) → P c
  by_client c = elim (ℕ_discrete c 9) [
    | yes is_nine ↦ subst P (sym is_nine) nine
    | no not_nine ↦ elim (ℕ_discrete c 8) [
      | yes is_eight ↦ subst P (sym is_eight) eight
      | no not_eight ↦ else_where c not_nine not_eight
    ]
  ]

mixed-events : (c : ℕ) → events_of c mixed ≡ cycles c (chunks c)
mixed-events = by_client refl refl (λ c not_nine not_eight. ground (arith, not_nine, not_eight))

no_chunks : (c : ℕ) → c ≢ 9 → c ≢ 8 → chunks c ≡ []
no_chunks c not_nine not_eight = ground (arith, not_nine, not_eight)

chunks-Fits : (c : ℕ) → Fits (chunks c)
chunks-Fits =
    by_client {P = λ c. Fits (chunks c)} (omega arith) (omega arith)
      (λ c not_nine not_eight. subst Fits (sym (no_chunks c not_nine not_eight)) tt)

mixed-IsConnected : (c : ℕ) → events_of c mixed ≢ [] → IsConnected both c
mixed-IsConnected =
    by_client {P = λ c. events_of c mixed ≢ [] → IsConnected both c}
      (λ some_there. record {
        received = none;
        buffer = replicate 1000 0xcd;
        held = refl;
        sized = length-replicate {A = ℕ} 1000 0xcd;
      })
      (λ some_there. record {
        received = none;
        buffer = replicate 1000 0xcd;
        held = refl;
        sized = length-replicate {A = ℕ} 1000 0xcd;
      })
      (λ c not_nine not_eight some_there. absurd (some_there (ground (arith, not_nine, not_eight))))

handle_all-clients_example :
    (v : Listener) × (handle_all mixed both ≡ some v)
    × ((c : ℕ) → actions_of c v.actions ≡ echoed c (chunks c) [])
handle_all-clients_example =
    handle_all-clients chunks mixed both mixed-events chunks-Fits mixed-IsConnected

dispatch_full_example : dispatch 9 only_in (arrives (replicate 1000 7)) connected ≡ none
dispatch_full_example =
    dispatch_full 9 connected connected-IsConnected (replicate 1000 7)
      (length-replicate {A = ℕ} 1000 7)

abbrev reset_by_peer : Answers
reset_by_peer = record { accepted = none; fresh_buffer = []; received = failed }

dispatch_end_example :
    (v : Listener) × (dispatch 9 only_in reset_by_peer connected ≡ some v)
    × (v.handlers 9 ≡ none)
    × (v.actions ≡ [])
    × ((later : Events) (others : Answers) → dispatch 9 later others v ≡ some v)
dispatch_end_example =
    dispatch_end 9 connected connected-IsConnected only_in reset_by_peer (inr (refl, tt))
