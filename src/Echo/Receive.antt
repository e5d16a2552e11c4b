-- ===== src/Echo/Receive.antt =====
-- What the branch of EPOLLIN in EchoHandler::handle does with the bytes received.
use mars_wrapper.Prelude.{
  ℕ, ◌-◌, ◌<◌, ◌≡◌, refl, ap, ◌∙◌, List, [], ◌∷◌, ◌++◌, true, false, Option, lt→ltb, none, some,
  arith, length, split_at, length-append,
}
use mars_wrapper.Prelude.Int.{ℤ, pos}
use mars_wrapper.Memory.Range.{store_at, store_at-append, store_at_short, store_at_all}
use mars_wrapper.Echo.{
  epollout, Echo, echo_handler, Listener, Events, got, Answers, buffer_size, readable, terminated,
  update_socket,
}

abbrev pub only_in : Events
only_in = record { hup = false; err = false; out = false; inp = true }

abbrev pub only_out : Events
only_out = record { hup = false; err = false; out = true; inp = false }

abbrev pub arrives : List ℕ → Answers
arrives bs = record { accepted = none; fresh_buffer = []; received = got bs }

module _ (e : Echo) (l : Listener) (sized : length e.buffer ≡ buffer_size) where
  -- A chunk that leaves room for the 0 behind it.
  filled :
      (c : List ℕ)
      → length c < buffer_size
      → (z : List ℕ) × (store_at 0 c e.buffer ≡ some (c ++ z)) × (length (c ++ z) ≡ buffer_size)
  filled c small =
      let (a, r, is_both, la, lr) =
        split_at (length c) {n = 1000 - length c} e.buffer (omega arith) in
      (
        r,
        ap (store_at 0 c) is_both ∙ store_at-append [] a r c refl la,
        omega (arith, length-append c r),
      )

  marked :
      (c z : List ℕ)
      → length c < buffer_size
      → length (c ++ z) ≡ buffer_size
      → (y : List ℕ) × (store_at (length c) (0 ∷ []) (c ++ z) ≡ some (c ++ y))
        × (length (c ++ y) ≡ buffer_size)
  marked c z small whole =
      let (o, y, is_both, lo, ly) =
        split_at 1 {n = 999 - length c} z (omega (arith, length-append c z)) in
      (
        0 ∷ y,
        ap (λ r. store_at (length c) (0 ∷ []) (c ++ r)) is_both
            ∙ store_at-append c o y (0 ∷ []) refl lo,
        omega (arith, length-append c (0 ∷ y)),
      )

  ends_with_zero :
      (c b b' : List ℕ)
      → 0 < length c
      → store_at (length c) (0 ∷ []) b ≡ some b'
      → terminated (length c) b ≡ some b'
  unfolding terminated
  ends_with_zero c b b' some_there stored = ground (arith, stored)

  stored_lem :
      (c b b' : List ℕ)
      → 0 < length c
      → store_at 0 c e.buffer ≡ some b
      → terminated (length c) b ≡ some b'
      → readable (got c) e l
        ≡ some (
          record e { received = some (pos (length c)); buffer = b' },
          update_socket e.fd epollout l,
        )
  unfolding readable
  stored_lem c b b' some_there first second =
      rw (first, readable) (rw (second, lt→ltb 0 (length c) some_there) refl)

  pub readable_lem :
      (x : ℕ) (xs : List ℕ)
      → length (x ∷ xs) < buffer_size
      → (y : List ℕ) × (readable (got (x ∷ xs)) e l
          ≡ some (
            record e { received = some (pos (length (x ∷ xs))); buffer = (x ∷ xs) ++ y },
            update_socket e.fd epollout l,
          ))
        × (length ((x ∷ xs) ++ y) ≡ buffer_size)
  readable_lem x xs small =
      let c = x ∷ xs in
      let (z, first, whole) = filled c small in
      let (y, second, whole') = marked c z small whole in
      (
        y,
        stored_lem c (c ++ z) (c ++ y) (omega arith) first
            (ends_with_zero c (c ++ z) (c ++ y) (omega arith) second),
        whole',
      )

  -- All of the buffer is received: the 0 goes behind its end.
  pub readable_full : (c : List ℕ) → length c ≡ buffer_size → readable (got c) e l ≡ none
  unfolding readable terminated
  readable_full c full =
      rw (store_at_all c e.buffer (omega arith), readable) (rw (outside, readable))
    where
      outside : terminated (length c) c ≡ none
      outside = ground (arith, store_at_short (length c) (0 ∷ []) c (omega arith))

-- The connection `fd` is in the map, with a handler of its own and a buffer of 1000 bytes.
pub record IsConnected (l : Listener) (fd : ℕ) : Type 0 where
  pub received : Option ℤ
  pub buffer : List ℕ
  pub held :
      l.handlers fd ≡ some (echo_handler (record { fd = fd; received = received; buffer = buffer }))
  pub sized : length buffer ≡ buffer_size
