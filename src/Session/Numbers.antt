-- ===== src/Session/Numbers.antt =====
-- The numbers of messages in a session: `newMessageId` in src/im_message.cpp, as the proxy and the
-- packer use its numbers.
use mars_wrapper.Prelude.{
  ℕ, ◌+◌, ◌-◌, ◌^◌, ◌≤◌, ◌<◌, ◌≡◌, ◌≢◌, refl, ap, ◌∙◌, List, [], ◌∷◌, false, none, some, arith,
}
use mars_wrapper.Host.{Host}
use mars_wrapper.Buffer.{AutoBuffer}
use mars_wrapper.Memory.{World, initial}
use mars_wrapper.Task.{
  invalid_task_id, noop_task_id, identify_checker_task_id, signalling_keeper_task_id,
}
use mars_wrapper.Longlink.{longlink_ispush}
use mars_wrapper.Proxy.Owned.{pending, pending-none}
use mars_wrapper.Session.{
  Event, sends, registers_push, registers_channel, asks, responds, pushes, ends, reports, Model,
  view, run, model_step, model_run, AllSound,
}
use mars_wrapper.Session.Refinement.{run_refines_model}

-- How many numbers a session uses up: one for each request and one for each push.
abbrev pub used : {Buffer : Type 0} → Event Buffer → ℕ
used (sends _ _ _) = 1
used (pushes _ _ _ _) = 1
used (registers_push _) = 0
used (registers_channel _) = 0
used (asks _ _) = 0
used (responds _ _) = 0
used (ends _ _ _) = 0
used (reports _ _) = 0

abbrev pub all_used : {Buffer : Type 0} → List (Event Buffer) → ℕ
all_used [] = 0
all_used (e ∷ es) = used e + all_used es

-- No request waits under the next number or a higher one.
abbrev pub Free : Model → Type 0
Free m = (t : ℕ) → m.next_id ≤ t → m.waiting t ≡ none

module _ ⦃h : Host⦄ {Buffer : Type 0} (ops : AutoBuffer Buffer) where
  pub step_counts :
      (e : Event Buffer) (m : Model)
      → m.next_id + used e < 2 ^ 32
      → Free m
      → ((model_step ops e m).next_id ≡ m.next_id + used e) × Free (model_step ops e m)
  unfolding model_step
  step_counts (sends body size callback) m fits free =
      (omega arith, λ t above. ground (arith, free t))
  step_counts (pushes channel_id cmdid taskid body) m fits free =
      (omega arith, λ t above. free t (omega arith))
  step_counts (registers_push listener) m fits free = (omega arith, free)
  step_counts (registers_channel listener) m fits free = (omega arith, free)
  step_counts (asks taskid out) m fits free = (omega arith, free)
  step_counts (responds taskid inbuffer) m fits free = (omega arith, free)
  step_counts (ends taskid error_type error_code) m fits free =
      (omega arith, λ t above. ground (arith, free t))
  step_counts (reports status longlink_status) m fits free = (omega arith, free)

  pub run_counts :
      (es : List (Event Buffer)) (m : Model)
      → m.next_id + all_used es < 2 ^ 32
      → Free m
      → ((model_run ops es m).next_id ≡ m.next_id + all_used es) × Free (model_run ops es m)
  unfolding model_run
  run_counts [] m fits free = (omega arith, free)
  run_counts (e ∷ es) m fits free =
      let (next, free') = step_counts e m (omega arith) free in
      let (last, free'') = run_counts es (model_step ops e m) (omega (arith, next)) free' in
      (omega (arith, last, next), free'')

  pub nothing_waits : Free (view initial)
  nothing_waits t above = pending-none initial t refl

  -- A session from the program's start whose sizes and response headers are sound (`AllSound`), and
  -- in which the requests and the pushes are fewer than 2 ^ 32 - 10001 together, does not fault. The
  -- next number is then 10000 and one more for each request and each push; no request waits under it
  -- or under a higher one; it is not the number of the heartbeat, and a packet that carries it is not
  -- taken for a push.
  pub next_number_is_free :
      (es : List (Event Buffer))
      → AllSound ops es
      → 10000 + all_used es < 2 ^ 32 - 1
      → (v : World) × (run ops es initial ≡ some v)
        × (v.message_id ≡ 10000 + all_used es)
        × ((t : ℕ) → v.message_id ≤ t → pending v t ≡ none)
        × (v.message_id ≢ noop_task_id)
        × ((cmdid : ℕ) → longlink_ispush cmdid v.message_id ≡ false)
  unfolding longlink_ispush
  next_number_is_free es sound few =
      let (v, ran, _, same) = run_refines_model ops es sound in
      let (next, free) = run_counts es (view initial) (omega arith) nothing_waits in
      let is_next : v.message_id ≡ 10000 + all_used es = ap (λ m. m.next_id) same ∙ next in
      (
        v,
        ran,
        is_next,
        λ t above. ap (λ m. m.waiting t) same ∙ free t (omega (arith, is_next, next)),
        λ noop. absurd (omega (arith, noop, is_next)),
        λ cmdid. ground (arith, is_next),
      )

  -- With two fewer, the next number is none of those that the mars library keeps for itself.
  next_number_is_ordinary :
      (es : List (Event Buffer))
      → AllSound ops es
      → 10000 + all_used es < 2 ^ 32 - 3
      → (v : World) × (run ops es initial ≡ some v)
        × (v.message_id ≢ invalid_task_id)
        × (v.message_id ≢ noop_task_id)
        × (v.message_id ≢ identify_checker_task_id)
        × (v.message_id ≢ signalling_keeper_task_id)
  next_number_is_ordinary es sound few =
      let (v, ran, is_next, _, _, _) = next_number_is_free es sound (omega (arith, few)) in
      (
        v,
        ran,
        λ same. absurd (omega (arith, same, is_next, few)),
        λ same. absurd (omega (arith, same, is_next, few)),
        λ same. absurd (omega (arith, same, is_next, few)),
        λ same. absurd (omega (arith, same, is_next, few)),
      )
