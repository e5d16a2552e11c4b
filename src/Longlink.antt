-- ===== src/Longlink.antt =====
-- src/proxy/longlink_packer.h and src/proxy/longlink_packer.cpp: how a request becomes the bytes on
-- the long connection, and how a packet is found in the bytes received.
pub mod Pack
pub mod Packets
pub mod RoundTrip
pub mod Stream
use mars_wrapper.Prelude.{
  ℕ, suc, ◌+◌, ◌*◌, ◌%◌, ◌^◌, List, [], ◌∷◌, ◌++◌, Bool, false, Option, none, some, if◌then◌else◌,
  ◌==◌, ltb, length, ◌&&◌, not,
}
use mars_wrapper.Prelude.Int.{ℤ, pos, negsuc}
use mars_wrapper.Host.{Host}
use mars_wrapper.Buffer.{AutoBuffer}
use mars_wrapper.Memory.Range.{load_at}
use mars_wrapper.Message.{header_size, id_offset, len_offset}
use mars_wrapper.Task.{noop_task_id}

-- LONGLINK_UNPACK_OK, LONGLINK_UNPACK_FALSE and LONGLINK_UNPACK_CONTINUE.
pub data UnpackResult : Type 0 where
  unpack_ok : UnpackResult
  unpack_false : UnpackResult
  unpack_continue : UnpackResult

abbrev pub result_code : UnpackResult → ℤ
result_code unpack_ok = pos 0
result_code unpack_false = negsuc 0
result_code unpack_continue = negsuc 1

abbrev pub im_heartbeat_bytes : ℕ
im_heartbeat_bytes = 4

abbrev pub signalkeep_cmdid : ℕ
signalkeep_cmdid = 243

abbrev pub push_data_taskid_start : ℕ
push_data_taskid_start = 0

abbrev pub push_data_taskid_end : ℕ
push_data_taskid_end = 10000

abbrev pub max_package : ℕ
max_package = 1024 * 1024

-- The variables that `__unpack_test` gets by reference.
pub record Out : Type 0 where
  pub cmdid : ℕ
  pub seq : ℕ
  pub package_len : ℕ
  pub body_len : ℕ

module _ ⦃h : Host⦄ where
  unfoldable pub classify : List ℕ → ℕ → ℕ → Out → UnpackResult × Out
  classify packed id len out =
      let package_len = (len + header_size) % h.size_mod in
      let out' : Out = record { cmdid = 0; seq = id; package_len = package_len; body_len = len } in
      if ltb max_package package_len
      then (unpack_false, out')
      else if ltb (length packed) package_len
      then (unpack_continue, out')
      else (unpack_ok, out')

  -- `none`: a header field is read past the bytes received.
  unfoldable pub unpack_test : List ℕ → Out → Option (UnpackResult × Out)
  unpack_test packed out =
      if length packed == im_heartbeat_bytes
      then some (unpack_ok, record out { seq = noop_task_id; package_len = length packed })
      else elim (load_at id_offset 4 packed) [
        | none ↦ none
        | some id ↦ elim (load_at len_offset 4 packed) [
          | none ↦ none
          | some len ↦ some (classify packed (h.value32 id) (h.value32 len) out)
        ]
      ]

  module _ {Buffer : Type 0} (ops : AutoBuffer Buffer) where
    unfoldable pub longlink_pack : ℕ → ℕ → Buffer → Buffer → Buffer
    longlink_pack cmdid seq body packed = ops.seek_start (
        if seq == noop_task_id
        then (let heart_beat_package = h.bytes32 (h.htonl 0x00000004) in
            ops.write (ops.alloc_write packed (length heart_beat_package)) heart_beat_package)
        else (let room = ops.alloc_write packed (length (ops.bytes body)) in
            if ltb 0 (length (ops.bytes body)) then ops.write room (ops.bytes body) else room))

    unpacked : Buffer → Buffer → UnpackResult × Out → UnpackResult × Out × Buffer
    unpacked packed body (unpack_ok, out) = (unpack_ok, out, ops.write_cur body (ops.bytes packed))
    unpacked packed body (unpack_false, out) = (unpack_false, out, body)
    unpacked packed body (unpack_continue, out) = (unpack_continue, out, body)

    -- The caller's `_cmdid`, `_seq` and `_package_len`; the local `body_len` starts at 0.
    unfoldable pub longlink_unpack :
        Buffer → ℕ → ℕ → ℕ → Buffer → Option (UnpackResult × Out × Buffer)
    unfolding unpacked
    longlink_unpack packed cmdid seq package_len body =
        elim (unpack_test (ops.bytes packed)
          (record { cmdid = cmdid; seq = seq; package_len = package_len; body_len = 0 })) [
            | none ↦ none
            | some r ↦ some (unpacked packed body r)
          ]

  -- `write` of the six bytes of "dummy" with its terminator.
  unfoldable pub longlink_noop_req_body : {Buffer : Type 0} → AutoBuffer Buffer → Buffer → Buffer
  longlink_noop_req_body ops body = ops.write body (b'd' ∷ b'u' ∷ b'm' ∷ b'm' ∷ b'y' ∷ 0 ∷ [])

unfoldable pub longlink_noop_cmdid : ℕ
longlink_noop_cmdid = noop_task_id

unfoldable pub longlink_noop_isresp : ℕ → ℕ → ℕ → Bool
longlink_noop_isresp taskid cmdid recv_seq = noop_task_id == recv_seq

unfoldable pub signal_keep_cmdid : ℕ
signal_keep_cmdid = signalkeep_cmdid

unfoldable pub longlink_noop_interval : ℕ
longlink_noop_interval = 10000

unfoldable pub longlink_complexconnect_need_verify : Bool
longlink_complexconnect_need_verify = false

unfoldable pub longlink_ispush : ℕ → ℕ → Bool
longlink_ispush cmdid taskid = ltb push_data_taskid_start taskid && ltb taskid push_data_taskid_end

unfoldable pub longlink_identify_isresp : ℕ → ℕ → ℕ → Bool
longlink_identify_isresp sent_seq cmdid recv_seq = sent_seq == recv_seq && not (0 == sent_seq)

-- It has nothing to do.
unfoldable pub longlink_noop_resp_body : {Buffer : Type 0} → Buffer → Unit {0}
longlink_noop_resp_body body = tt

-- `sg_client_version`, and the trackers made so far: longlink_tracker::Create makes one more.
pub record Statics : Type 0 where
  pub client_version : ℕ
  pub trackers : ℕ

abbrev pub initial_statics : Statics
initial_statics = record { client_version = 0; trackers = 0 }

unfoldable pub set_client_version : ℕ → Statics → Statics
set_client_version version s = record s { client_version = version % 2 ^ 32 }

unfoldable pub create_tracker : Statics → ℕ × Statics
create_tracker s = (s.trackers, record s { trackers = suc s.trackers })

-- The function pointers that the mars library is linked with.
pub record Packer (Buffer : Type 0) : Type 0 where
  pub create_tracker : Statics → ℕ × Statics
  pub pack : ℕ → ℕ → Buffer → Buffer → Buffer
  pub unpack : Buffer → ℕ → ℕ → ℕ → Buffer → Option (UnpackResult × Out × Buffer)
  pub noop_cmdid : ℕ
  pub noop_isresp : ℕ → ℕ → ℕ → Bool
  pub signal_keep_cmdid : ℕ
  pub noop_req_body : Buffer → Buffer
  pub noop_resp_body : Buffer → Unit {0}
  pub noop_interval : ℕ
  pub complexconnect_need_verify : Bool
  pub ispush : ℕ → ℕ → Bool
  pub identify_isresp : ℕ → ℕ → ℕ → Bool

abbrev pub longlink_packer : ⦃h : Host⦄ → {Buffer : Type 0} → AutoBuffer Buffer → Packer Buffer
longlink_packer ops = record {
  create_tracker = create_tracker;
  pack = longlink_pack ops;
  unpack = longlink_unpack ops;
  noop_cmdid = longlink_noop_cmdid;
  noop_isresp = longlink_noop_isresp;
  signal_keep_cmdid = signal_keep_cmdid;
  noop_req_body = longlink_noop_req_body ops;
  noop_resp_body = longlink_noop_resp_body;
  noop_interval = longlink_noop_interval;
  complexconnect_need_verify = longlink_complexconnect_need_verify;
  ispush = longlink_ispush;
  identify_isresp = longlink_identify_isresp;
}
