-- ===== src/Longlink/Pack.antt =====
-- What `longlink_pack` puts on the wire.
use mars_wrapper.Prelude.{
  ℕ, ◌≡◌, ◌≢◌, sym, ◌∙◌, inl, inr, ◌⊎◌, List, [], ◌∷◌, false, arith, length, ltb, ◌==◌,
  length-eq-zero, dec_lt, ℕ_discrete, lt→ltb,
}
use mars_wrapper.Host.{Host, network_bytes}
use mars_wrapper.Buffer.{AutoBuffer, IsFresh, write-alloc_write-IsFresh}
use mars_wrapper.Task.{noop_task_id}
use mars_wrapper.Longlink.{longlink_pack}

module _ ⦃h : Host⦄ {Buffer : Type 0} (ops : AutoBuffer Buffer) (cmdid seq : ℕ)
    (body packed : Buffer) (fresh : IsFresh ops packed) where
  abbrev wire : List ℕ
  wire = ops.bytes (longlink_pack ops cmdid seq body packed)

  at_noop : seq ≡ noop_task_id → wire ≡ network_bytes 4
  unfolding longlink_pack
  at_noop noop =
      ops.bytes-seek_start _
      ∙ rw (noop) (
          write-alloc_write-IsFresh ops packed (h.bytes32 (h.htonl 4)) fresh
          ∙ h.bytes32-htonl 4 (omega arith))

  no_body :
      length (ops.bytes body) ≡ 0
      → ops.bytes (ops.alloc_write packed (length (ops.bytes body))) ≡ ops.bytes body
  no_body none_there =
      length-eq-zero _ (
        ops.length-alloc_write packed (length (ops.bytes body))
        ∙ rw (fresh.no_bytes, fresh.at_start, none_there))
      ∙ sym (length-eq-zero (ops.bytes body) none_there)

  pub longlink_pack_task : seq ≢ noop_task_id → wire ≡ ops.bytes body
  unfolding longlink_pack
  longlink_pack_task other =
      let is_task : (seq == noop_task_id) ≡ false = ground arith in
      ops.bytes-seek_start _
      ∙ rw is_task (elim (dec_lt 0 (length (ops.bytes body))) [
        | yes some_there ↦
            rw (lt→ltb 0 _ some_there) (write-alloc_write-IsFresh ops packed (ops.bytes body) fresh)
        | no none_there ↦
            let not_there : ltb 0 (length (ops.bytes body)) ≡ false = ground arith in
            rw not_there (no_body (omega arith))
      ])

  -- A buffer that was fresh carries 00 00 00 04 for the heartbeat's number, on every platform, and for
  -- any other number the bytes that the request callback gave, even if there are none.
  pub longlink_pack_lem :
      ((seq ≡ noop_task_id) × (wire ≡ 0 ∷ 0 ∷ 0 ∷ 4 ∷ []))
      ⊎ ((seq ≢ noop_task_id) × (wire ≡ ops.bytes body))
  longlink_pack_lem = elim (ℕ_discrete seq noop_task_id) [
    | yes noop ↦ inl (noop, at_noop noop)
    | no other ↦ inr (other, longlink_pack_task other)
  ]
