-- ===== src/Callback/Answers.antt =====
-- What the callbacks of src/proxy/stn_callback.cpp answer, by the enumerations that the mars library reads the
-- answers by.
use mars_wrapper.Prelude.{
  ap, ◌∷◌, ◌++◌, ◌==◌, if◌then◌else◌, ℕ, ◌+◌, ◌≤◌, ◌<◌, ◌^◌, ◌≡◌, refl, inl, inr, length, Option,
  none, some, Option-cases,
}
use mars_wrapper.Prelude.Int.{ℤ, pos, negsuc}
use mars_wrapper.Host.{Host}
use mars_wrapper.Buffer.{AutoBuffer}
use mars_wrapper.Memory.{World, Call, on_channel_status}
use mars_wrapper.Message.{header_size}
use mars_wrapper.Message.Header.{len_of}
use mars_wrapper.Mars.Answers.{
  TaskFailHandle, fail_normal, fail_default, fail_code, NetStatus, network_unkown,
  network_unavailable, gate_way_failed, server_failed, connecting, connected, server_down, net_code,
  check_next, identify_code,
}
use mars_wrapper.Proxy.Owned.{Inv, Request, pending}
use mars_wrapper.Callback.{report_connect_status, buf2resp, get_longlink_identify_check_buffer}
use mars_wrapper.Callback.Status.{status_calls, report_connect_status_lem}
use mars_wrapper.Callback.Response.{buf2resp-pending, buf2resp-silent}

-- By the request that waits: only a listener takes a response.
abbrev pub handled : Option Request → TaskFailHandle
handled none = fail_default
handled (some (none, body)) = fail_default
handled (some (some callback, body)) = fail_normal

-- In well-formed memory, for a packet of fewer than 2 ^ 31 bytes that has a whole header and all the bytes
-- that the header announces: `Buf2Resp` does not fault, for any task, and answers kTaskFailHandleNormal if
-- the task waits with a listener, and kTaskFailHandleDefault if it does not. Each task waits as before, and
-- the memory is well formed.
pub buf2resp_answers :
    ⦃h : Host⦄
    → {Buffer : Type 0} (ops : AutoBuffer Buffer) {w : World} → Inv w
    → (t : ℕ) (packet : Buffer)
    → header_size + len_of (ops.bytes packet) ≤ length (ops.bytes packet)
    → length (ops.bytes packet) < 2 ^ 31
    → (v : World) × (buf2resp ops t packet w ≡ some (fail_code (handled (pending w t)), v))
      × Inv v
      × ((s : ℕ) → pending v s ≡ pending w s)
buf2resp_answers ops {w} inv t packet inside small = elim (Option-cases (pending w t)) [
  | inl missing ↦ (w, rw missing (buf2resp-silent ops inv t packet (inl missing)), inv, λ s. refl)
  | inr ((none, body), waits) ↦
      (w, rw waits (buf2resp-silent ops inv t packet (inr (body, waits))), inv, λ s. refl)
  | inr ((some callback, body), waits) ↦
      let (v, ran, vinv, same, _, _, _, _) =
        buf2resp-pending ops inv t packet callback body waits inside small in
      (v, rw waits ran, vinv, same)
]

-- The check of the long link is put off to the next one.
identify_answer : get_longlink_identify_check_buffer.0 ≡ identify_code check_next
unfolding get_longlink_identify_check_buffer
identify_answer = refl

-- The state of the connection that a number stands for.
abbrev net_of : ℤ → Option NetStatus
net_of (pos n) =
    if n == 0
    then some network_unavailable
    else if n == 1
    then some gate_way_failed
    else if n == 2
    then some server_failed
    else if n == 3
    then some connecting
    else if n == 4
    then some connected
    else if n == 5
    then some server_down
    else none
net_of (negsuc n) = if n == 0 then some network_unkown else none

net_of-net_code : (s : NetStatus) → net_of (net_code s) ≡ some s
net_of-net_code network_unkown = refl
net_of-net_code network_unavailable = refl
net_of-net_code gate_way_failed = refl
net_of-net_code server_failed = refl
net_of-net_code connecting = refl
net_of-net_code connected = refl
net_of-net_code server_down = refl

abbrev status_heard : Call → Option NetStatus
status_heard (on_channel_status _ status) = net_of status
status_heard _ = none

-- The listener for the connection can tell every state of the long link from the number it is given, and
-- hears nothing of the other number.
reported_status :
    (w : World) (listener : ℕ) (status : ℤ) (longlink : NetStatus)
    → w.channel_listener ≡ some listener
    → (v : World) × (c : Call) × (report_connect_status status (net_code longlink) w ≡ some (tt, v))
      × (v.log ≡ c ∷ w.log)
      × (status_heard c ≡ some longlink)
reported_status w listener status longlink there = (
  record w { log = status_calls w.channel_listener (net_code longlink) ++ w.log },
  on_channel_status listener (net_code longlink),
  report_connect_status_lem w status (net_code longlink),
  ap (λ l. status_calls l (net_code longlink) ++ w.log) there,
  net_of-net_code longlink,
)
