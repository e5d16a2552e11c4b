-- ===== src/Client/Main.antt =====
-- The `main` of the demo's TCP client.
use mars_wrapper.Prelude.{ℕ, ◌≡◌, refl, List, [], ◌∷◌, none, length, Lacks, arith}
use mars_wrapper.Host.{Host}
use mars_wrapper.Memory.Range.{store_at_all}
use mars_wrapper.Client.{Net, got, MainAnswers, reply_size, until_zero, print_reply, main}

until_zero-Lacks : (s : List ℕ) → Lacks 0 s → until_zero s ≡ none
unfolding until_zero
until_zero-Lacks [] lacks = refl
until_zero-Lacks (c ∷ s) (other, lacks) = ground (arith, other, until_zero-Lacks s lacks)

unprinted :
    (a : MainAnswers) (bytes : List ℕ)
    → a.received ≡ got bytes
    → length a.server_reply ≡ length bytes
    → Lacks 0 bytes
    → print_reply a ≡ none
unfolding print_reply
unprinted a bytes came room lacks =
    rw (came, print_reply)
      (rw (store_at_all bytes a.server_reply room, print_reply)
        (rw (until_zero-Lacks bytes lacks, print_reply) refl))

module _ ⦃h : Host⦄ (net : Net) (a : MainAnswers) (host port text : List ℕ) where
  -- A reply of 2000 bytes, none of them zero, leaves no zero in the buffer, and `puts` reads past it.
  pub main_full_reply :
      (bytes : List ℕ)
      → a.received ≡ got bytes
      → length a.server_reply ≡ reply_size
      → length bytes ≡ reply_size
      → Lacks 0 bytes
      → main net a host port text ≡ none
  unfolding main
  main_full_reply bytes came room full lacks =
      rw (unprinted a bytes came (omega arith) lacks, main) refl
