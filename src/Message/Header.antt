-- ===== src/Message/Header.antt =====
-- What the header of received bytes says, whoever sent them.
use mars_wrapper.Prelude.{
  ℕ, ◌+◌, ◌≤◌, ◌<◌, ◌^◌, ◌≡◌, refl, sym, ap, ◌∙◌, List, [], append-nil, ◌++◌, some, arith, length,
  length-append, take, drop, eq_of_some,
}
use mars_wrapper.Host.{Host}
use mars_wrapper.Memory.Range.{load_at, load_at_inside}
use mars_wrapper.Message.{header_size, id_offset, len_offset, magic_num}
use mars_wrapper.Message.Frame.{frame, raw_frame, length-raw_frame, id_at, len_at, body_at}

module _ ⦃h : Host⦄ where
  -- What the header of any bytes says, where there are at least twelve.
  unfoldable pub len_of : List ℕ → ℕ
  len_of b = h.value32 (take 4 (drop len_offset b))

  unfoldable pub id_of : List ℕ → ℕ
  id_of b = h.value32 (take 4 (drop id_offset b))

  unfoldable pub body_of : List ℕ → List ℕ
  body_of b = take (len_of b) (drop header_size b)

  module _ (b : List ℕ) (whole : header_size ≤ length b) where
    pub load_at-len_of :
        (bs : List ℕ) × (load_at len_offset 4 b ≡ some bs) × (h.value32 bs ≡ len_of b)
    unfolding len_of
    load_at-len_of = (take 4 (drop len_offset b), load_at_inside len_offset 4 b (omega arith), refl)

    pub load_at-id_of : (bs : List ℕ) × (load_at id_offset 4 b ≡ some bs) × (h.value32 bs ≡ id_of b)
    unfolding id_of
    load_at-id_of = (take 4 (drop id_offset b), load_at_inside id_offset 4 b (omega arith), refl)

    pub load_at-body_of :
        header_size + len_of b ≤ length b → load_at header_size (len_of b) b ≡ some (body_of b)
    unfolding body_of
    load_at-body_of inside = load_at_inside header_size (len_of b) b inside

  module _ (magic id len : ℕ) (rest : List ℕ) where
    long_enough : header_size ≤ length (raw_frame magic id len rest)
    long_enough = omega (arith, length-raw_frame magic id len rest)

    pub len_of-raw_frame : len < 2 ^ 32 → len_of (raw_frame magic id len rest) ≡ len
    len_of-raw_frame small =
        let (bs, read, is_len) = load_at-len_of (raw_frame magic id len rest) long_enough in
        sym is_len
        ∙ ap h.value32 (eq_of_some (sym read ∙ len_at magic id len rest))
        ∙ h.value32-bytes32 len small

    pub id_of-raw_frame : id < 2 ^ 32 → id_of (raw_frame magic id len rest) ≡ id
    id_of-raw_frame small =
        let (bs, read, is_id) = load_at-id_of (raw_frame magic id len rest) long_enough in
        sym is_id
        ∙ ap h.value32 (eq_of_some (sym read ∙ id_at magic id len rest))
        ∙ h.value32-bytes32 id small

  pub body_of-raw_frame :
      (magic id : ℕ) (body rest : List ℕ)
      → length body < 2 ^ 32
      → body_of (raw_frame magic id (length body) (body ++ rest)) ≡ body
  body_of-raw_frame magic id body rest small = eq_of_some (
      sym (load_at-body_of whole_frame long inside)
      ∙ ap (λ n. load_at header_size n whole_frame) len_known
      ∙ body_at magic id (length body) body rest refl)
    where
      whole_frame : List ℕ
      whole_frame = raw_frame magic id (length body) (body ++ rest)

      long : header_size ≤ length whole_frame
      long = long_enough magic id (length body) (body ++ rest)

      len_known : len_of whole_frame ≡ length body
      len_known = len_of-raw_frame magic id (length body) (body ++ rest) small

      inside : header_size + len_of whole_frame ≤ length whole_frame
      inside = omega (
        arith,
        len_known,
        length-raw_frame magic id (length body) (body ++ rest),
        length-append body rest,
      )

  pub body_of-frame :
      (id : ℕ) (body : List ℕ) → length body < 2 ^ 32 → body_of (frame id body) ≡ body
  body_of-frame id body small =
      ap (λ rest. body_of (raw_frame magic_num id (length body) rest)) (sym (append-nil body))
      ∙ body_of-raw_frame magic_num id body [] small
