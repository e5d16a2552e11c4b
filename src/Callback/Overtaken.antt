-- ===== src/Callback/Overtaken.antt =====
-- A callback of src/proxy/stn_callback.cpp in one thread, overtaken by the end of the same task in another:
-- `OnTaskEnd` runs between the callback's `getTaskConext` and the rest of it. The mutex is free there.
use mars_wrapper.Prelude.{ℕ, suc, ◌≡◌, ◌∙◌, List, none, some, arith}
use mars_wrapper.Prelude.Int.{ℤ}
use mars_wrapper.Host.{Host}
use mars_wrapper.Buffer.{AutoBuffer}
use mars_wrapper.Memory.{World, Pointer, M, ◌>>=◌, >>=-some, >>=-none, read_context}
use mars_wrapper.Proxy.{get_task_context, remove_found}
use mars_wrapper.Proxy.Owned.{Inv, pending}
use mars_wrapper.Proxy.Remove.{get_task_context_lem}
use mars_wrapper.Callback.{req2buf_found, buf2resp_found, end_found, on_task_end}
use mars_wrapper.Callback.TaskEnd.{context_of_pending, after_end, on_task_end_lem}

unfoldable pub overtaken : {A : Type 0} → ℕ → ℕ → ℤ → (Pointer → M A) → M A
overtaken t error_type error_code rest = do
  ctx ← get_task_context t
  _ ← on_task_end t error_type error_code
  rest ctx

module _ ⦃h : Host⦄ {Buffer : Type 0} (ops : AutoBuffer Buffer) {w : World} (inv : Inv w) (t : ℕ)
    (error_type : ℕ) (error_code : ℤ) where
  module _ {ctx : Pointer} (held : w.contexts t ≡ some ctx) where
    abbrev own_at : ℕ
    own_at = suc (suc ((inv.owned t ctx held).at))

    freed : read_context (some own_at) (after_end inv t error_type error_code ctx held) ≡ none
    unfolding read_context
    freed = ground arith

    reaches_rest :
        {A : Type 0} (rest : Pointer → M A)
        → overtaken t error_type error_code rest w
          ≡ rest (some own_at) (after_end inv t error_type error_code ctx held)
    unfolding overtaken
    reaches_rest rest =
        >>=-some (get_task_context t) _ (get_task_context_lem held (inv.owned t ctx held))
        ∙ >>=-some (on_task_end t error_type error_code) _
            (on_task_end_lem inv t error_type error_code ctx held)

  -- In well-formed memory, for a task that waits: `Req2Buf`, `Buf2Resp`, another `OnTaskEnd` and another
  -- `removeTaskContext`, each overtaken by the end of the same task, read the context after it was freed,
  -- whatever the result of the end.
  pub overtaken_faults :
      (callback : Pointer) (body : List ℕ)
      → pending w t ≡ some (callback, body)
      → ((out : Buffer)
          → overtaken t error_type error_code (λ ctx. req2buf_found ops ctx out) w ≡ none)
        × ((packet : List ℕ)
            → overtaken t error_type error_code (λ ctx. buf2resp_found ctx packet) w ≡ none)
        × ((type' : ℕ) (code' : ℤ)
            → overtaken t error_type error_code (λ ctx. end_found t ctx type' code') w ≡ none)
        × (overtaken t error_type error_code (remove_found t) w ≡ none)
  unfolding req2buf_found buf2resp_found end_found remove_found
  overtaken_faults callback body waits =
      let (ctx, held, _, _) = context_of_pending inv waits in
      let gone = freed held in
      (
        λ out.
            reaches_rest held (λ c. req2buf_found ops c out)
            ∙ >>=-none (read_context (some (own_at held))) _ gone,
        λ packet.
            reaches_rest held (λ c. buf2resp_found c packet)
            ∙ >>=-none (read_context (some (own_at held))) _ gone,
        λ type' code'.
            reaches_rest held (λ c. end_found t c type' code')
            ∙ >>=-none (read_context (some (own_at held))) _ gone,
        reaches_rest held (remove_found t) ∙ >>=-none (read_context (some (own_at held))) _ gone,
      )
