-- ===== src/Echo/End.antt =====
-- How a connection of the echo server of the demo ends.
use mars_wrapper.Prelude.{
  ℕ, ◌≡◌, refl, List, [], ◌∷◌, true, ◌⊎◌, inl, inr, none, some, arith, length,
}
use mars_wrapper.Prelude.Int.{pos, negsuc}
use mars_wrapper.Memory.{update}
use mars_wrapper.Memory.Range.{store_at, store_at-append}
use mars_wrapper.Echo.{
  Echo, Listener, Events, Received, failed, got, Answers, buffer_size, readable, terminated,
  dispatch, handle_echo, then_readable, remove_socket,
}
use mars_wrapper.Echo.Receive.{only_in, arrives, IsConnected, readable_full}

-- An error or the end of the stream.
abbrev pub Ends : Received → Type 0
Ends failed = Unit
Ends (got bs) = bs ≡ []

module _ (fd : ℕ) (l : Listener) (c : IsConnected l fd) where
  abbrev echo : Echo
  echo = record { fd = fd; received = c.received; buffer = c.buffer }

  -- A client that is connected and sends 1000 bytes, as many as the buffer holds, in one readable
  -- event, makes the handler fault: it writes behind the buffer's end.
  pub dispatch_full :
      (bytes : List ℕ) → length bytes ≡ buffer_size → dispatch fd only_in (arrives bytes) l ≡ none
  unfolding dispatch handle_echo
  dispatch_full bytes full =
      rw (c.held, dispatch) (rw (readable_full echo l c.sized bytes full, then_readable) refl)

  abbrev gone : Listener
  gone = record l { handlers = update l.handlers fd none }

  -- Nothing is done for a socket that is not in the map.
  ignored : (events : Events) (answers : Answers) → dispatch fd events answers gone ≡ some gone
  unfolding dispatch
  ignored events answers = ground arith

  hung_up :
      (events : Events) (answers : Answers)
      → events.hup ≡ true
      → dispatch fd events answers l ≡ some gone
  unfolding dispatch handle_echo remove_socket
  hung_up events answers on = ground (arith, c.held, on)

  nothing_stored : store_at 0 [] c.buffer ≡ some c.buffer
  nothing_stored = store_at-append [] [] c.buffer [] refl refl

  last_read : (r : Received) → Ends r → (e' : Echo) × (readable r echo l ≡ some (e', gone))
  unfolding readable terminated remove_socket
  last_read failed last = (record echo { received = some (negsuc 0) }, refl)
  last_read (got []) last =
      (record echo { received = some (pos 0) }, rw (nothing_stored, readable) refl)
  last_read (got (x ∷ xs)) last = absurd (ground (arith, last))

  closed : (answers : Answers) → Ends answers.received → dispatch fd only_in answers l ≡ some gone
  unfolding dispatch handle_echo
  closed answers last =
      let (e', run) = last_read answers.received last in
      rw (c.held, dispatch) (rw (run, then_readable) (ground arith))

  -- A client that is connected is taken out of the map when its socket hangs up, and when a readable
  -- event brings the end of the stream or an error; `send` and `epoll_ctl` are not called. From then on
  -- no event of that socket does anything.
  pub dispatch_end :
      (events : Events) (answers : Answers)
      → (events.hup ≡ true) ⊎ ((events ≡ only_in) × Ends answers.received)
      → (v : Listener) × (dispatch fd events answers l ≡ some v)
        × (v.handlers fd ≡ none)
        × (v.actions ≡ l.actions)
        × ((later : Events) (others : Answers) → dispatch fd later others v ≡ some v)
  dispatch_end events answers why = (gone, leaves why, ground arith, refl, ignored)
    where
      leaves :
          (events.hup ≡ true) ⊎ ((events ≡ only_in) × Ends answers.received)
          → dispatch fd events answers l ≡ some gone
      leaves (inl on) = hung_up events answers on
      leaves (inr (same, last)) = rw same (closed answers last)
