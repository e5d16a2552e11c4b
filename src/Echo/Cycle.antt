-- ===== src/Echo/Cycle.antt =====
-- What the echo server of the demo sends to a client.
use mars_wrapper.Prelude.{
  ℕ, ◌<◌, ◌≡◌, ◌≢◌, refl, ◌∙◌, List, [], ◌∷◌, ◌++◌, some, arith, length, take-append,
}
use mars_wrapper.Prelude.Int.{pos}
use mars_wrapper.Memory.{update}
use mars_wrapper.Echo.{
  Action, epoll_mod, send, epollin, epollout, Echo, echo_handler, Listener, Events, Answers,
  buffer_size, readable, writable, dispatch, handle_echo, then_readable, handle_all, update_socket,
}
use mars_wrapper.Echo.Receive.{only_in, only_out, arrives, IsConnected, readable_lem}

-- Each chunk is received by one readable event, and a writable event follows it.
abbrev pub cycles : ℕ → List (List ℕ) → List (ℕ × Events × Answers)
cycles fd [] = []
cycles fd (c ∷ cs) = (fd, only_in, arrives c) ∷ (fd, only_out, arrives []) ∷ cycles fd cs

abbrev pub Fits : List (List ℕ) → Type 0
Fits [] = Unit
Fits (c ∷ cs) = (0 < length c) × (length c < buffer_size) × Fits cs

-- What is done for the chunks, before what was done first.
abbrev pub echoed : ℕ → List (List ℕ) → List Action → List Action
echoed fd [] actions = actions
echoed fd (c ∷ cs) actions =
    echoed fd cs (epoll_mod fd epollin ∷ send fd c ∷ epoll_mod fd epollout ∷ actions)

module _ (fd : ℕ) where
  abbrev pub with_echo : Listener → Echo → List Action → Listener
  with_echo l e actions = record {
    handlers = update l.handlers fd (some (echo_handler e));
    actions = actions;
  }

  arrived :
      (l : Listener) (e e' : Echo) (answers : Answers) (actions : List Action)
      → l.handlers fd ≡ some (echo_handler e)
      → readable answers.received e l ≡ some (e', record l { actions = actions })
      → dispatch fd only_in answers l ≡ some (with_echo l e' actions)
  unfolding dispatch handle_echo
  arrived l e e' answers actions held run =
      rw (held, dispatch) (rw (run, then_readable) (rw (held, dispatch) refl))

  pub received_lem :
      (l : Listener) (c : IsConnected l fd) (x : ℕ) (xs : List ℕ)
      → length (x ∷ xs) < buffer_size
      → (y : List ℕ) × (dispatch fd only_in (arrives (x ∷ xs)) l
          ≡ some (
              with_echo l
                (record {
                  fd = fd;
                  received = some (pos (length (x ∷ xs)));
                  buffer = (x ∷ xs) ++ y;
                })
                (epoll_mod fd epollout ∷ l.actions)))
        × (length ((x ∷ xs) ++ y) ≡ buffer_size)
  unfolding update_socket
  received_lem l c x xs small =
      let e : Echo = record { fd = fd; received = c.received; buffer = c.buffer } in
      let (y, run, whole) = readable_lem e l c.sized x xs small in
      (y, arrived l e _ (arrives (x ∷ xs)) _ c.held run, whole)

  pub sent_lem :
      (l : Listener) (x : ℕ) (xs y : List ℕ) (actions : List Action)
      → dispatch fd only_out (arrives []) (
          with_echo l
            (record { fd = fd; received = some (pos (length (x ∷ xs))); buffer = (x ∷ xs) ++ y })
            actions)
        ≡ some (
            with_echo l
              (record { fd = fd; received = some (pos 0); buffer = (x ∷ xs) ++ y })
              (epoll_mod fd epollin ∷ send fd (x ∷ xs) ∷ actions))
  unfolding dispatch handle_echo writable update_socket
  sent_lem l x xs y actions = ground (arith, take-append (x ∷ xs) y refl)

  -- For a client that is connected, whose data comes in chunks of 1 to 999 bytes, each in one readable
  -- event that a writable event follows: the handlers do not fault, and each chunk is sent back to
  -- that client, whole and once and in order, with the interest in the socket turned to writing
  -- before and back to reading after. The client stays connected, and no other handler changes.
  pub handle_all-cycles :
      (cs : List (List ℕ)) (l : Listener)
      → Fits cs
      → IsConnected l fd
      → (v : Listener) × (handle_all (cycles fd cs) l ≡ some v)
        × IsConnected v fd
        × (v.actions ≡ echoed fd cs l.actions)
        × ((other : ℕ) → other ≢ fd → v.handlers other ≡ l.handlers other)
  unfolding handle_all
  handle_all-cycles [] l fits c = (l, refl, c, refl, λ other apart. refl)
  handle_all-cycles ([] ∷ cs) l (some_there, _, _) c = absurd (omega (arith, some_there))
  handle_all-cycles ((x ∷ xs) ∷ cs) l (_, small, fits) c =
      let (y, first, whole) = received_lem l c x xs small in
      let l1 =
        with_echo l
          (record { fd = fd; received = some (pos (length (x ∷ xs))); buffer = (x ∷ xs) ++ y })
          (epoll_mod fd epollout ∷ l.actions) in
      let second = sent_lem l x xs y (epoll_mod fd epollout ∷ l.actions) in
      let l2 : Listener =
        with_echo l (record { fd = fd; received = some (pos 0); buffer = (x ∷ xs) ++ y })
          (epoll_mod fd epollin ∷ send fd (x ∷ xs) ∷ epoll_mod fd epollout ∷ l.actions) in
      let again : IsConnected l2 fd = record {
        received = some (pos 0);
        buffer = (x ∷ xs) ++ y;
        held = ground arith;
        sized = whole;
      } in
      let (v, later, c', acted, others) = handle_all-cycles cs l2 fits again in
      (
        v,
        rw (first, handle_all) (rw (second, handle_all) later),
        c',
        acted,
        λ other apart. others other apart ∙ ground arith,
      )
