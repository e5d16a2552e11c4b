-- ===== src/Session/Threads.antt =====
-- `sendMessage` of src/mars_plus.cpp in any number of threads, and the calls of the mars library, interleaved in
-- any order. A call of `sendMessage` goes on in three steps: what it allocates, `storeContext`, and
-- `StartTask`; each step, and each callback of the library, is taken whole. What goes on in a call is known
-- by the number of its message.
pub mod Stages
pub mod Spared
pub mod Steps
pub mod Refinement
pub mod Starts
use mathlib.Core.Option
use mars_wrapper.Prelude.{
  ℕ, ◌+◌, ◌%◌, ◌^◌, ◌≤◌, ◌<◌, ◌≡◌, Bool, true, false, List, [], ◌∷◌, ◌++◌, Option, none, some,
  length, take, ◌==◌, if◌then◌else◌,
}
use mars_wrapper.Prelude.Int.{ℤ}
use mars_wrapper.Host.{Host}
use mars_wrapper.Buffer.{AutoBuffer}
use mars_wrapper.Mars.{start_task}
use mars_wrapper.Memory.{World, Pointer, M, initial, update, call, to_stn}
use mars_wrapper.Proxy.{store_context}
use mars_wrapper.Proxy.Owned.{Request}
use mars_wrapper.Plus.{prepare, request_task}
use mars_wrapper.Session.{
  Event, sends, registers_push, registers_channel, asks, responds, pushes, ends, reports, Model,
  view, state, step, model_step, Sound,
}

pub data Act (Buffer : Type 0) : Type 0 where
  -- a thread, in `sendMessage`
  prepares : List ℕ → ℕ → Pointer → Act Buffer
  stores : ℕ → Act Buffer
  starts : ℕ → Act Buffer
  -- a callback of the mars library, or a new listener
  comes : Event Buffer → Act Buffer

-- `local` is the variable `ctx` of the call of `sendMessage` with the number.
pub record Threads : Type 0 where
  pub world : World
  pub local : ℕ → Pointer

abbrev pub threads_start : Threads
threads_start = record { world = initial; local = λ _. none }

abbrev pub with_world : Threads → Option World → Option Threads
with_world s none = none
with_world s (some w) = some (record s { world = w })

-- The step that made the context keeps its address.
abbrev pub with_local : Threads → Option ((ℕ × Pointer) × World) → Option Threads
with_local s none = none
with_local s (some ((t, ctx), w)) = some (record { world = w; local = update s.local t ctx })

-- How far the call of `sendMessage` with a number has come, and then the task of that number.
pub data Stage : Type 0 where
  unused : Stage
  prepared : Request → Stage
  stored : Request → Stage
  started : Request → Stage
  over : Stage

pub record Plan : Type 0 where
  pub model : Model
  pub stage : ℕ → Stage

abbrev pub plan_start : Plan
plan_start = record { model = view initial; stage = λ _. unused }

abbrev pub IsPrepared : Stage → Type 0
IsPrepared g = (r : Request) × (g ≡ prepared r)

abbrev pub IsStored : Stage → Type 0
IsStored g = (r : Request) × (g ≡ stored r)

abbrev pub IsStarted : Stage → Type 0
IsStarted g = (r : Request) × (g ≡ started r)

-- The request that waits at a stage.
abbrev pub waits : Stage → Option Request
waits unused = none
waits (prepared r) = none
waits (stored r) = some r
waits (started r) = some r
waits over = none

-- An end is the end of the stages too.
abbrev pub stage_after : {Buffer : Type 0} → Event Buffer → (ℕ → Stage) → ℕ → Stage
stage_after (ends t _ _) stage = update stage t over
stage_after (asks _ _) stage = stage
stage_after (responds _ _) stage = stage
stage_after (sends _ _ _) stage = stage
stage_after (registers_push _) stage = stage
stage_after (registers_channel _) stage = stage
stage_after (pushes _ _ _ _) stage = stage
stage_after (reports _ _) stage = stage

-- What a step of a thread should do: to the model, and to the stages.
pub store_in : ℕ → Stage → Plan → Plan
store_in t (prepared r) m = record {
  model = record m.model { waiting = update m.model.waiting t (some r) };
  stage = update m.stage t (stored r);
}
store_in t unused m = m
store_in t (stored r) m = m
store_in t (started r) m = m
store_in t over m = m

pub start_in : ⦃h : Host⦄ → ℕ → Stage → Plan → Plan
start_in t (stored r) m = record {
  model = record m.model { calls = to_stn (start_task (request_task t)) ∷ m.model.calls };
  stage = update m.stage t (started r);
}
start_in t unused m = m
start_in t (prepared r) m = m
start_in t (started r) m = m
start_in t over m = m

module _ ⦃h : Host⦄ {Buffer : Type 0} (ops : AutoBuffer Buffer) where
  unfoldable pub perform : Act Buffer → Threads → Option Threads
  perform (prepares body size callback) s = with_local s (prepare body size callback s.world)
  perform (stores t) s = with_world s (state (store_context t (s.local t) s.world))
  perform (starts t) s = with_world s (state (call (to_stn (start_task (request_task t))) s.world))
  perform (comes e) s = with_world s (step ops e s.world)

  unfoldable pub perform_all : List (Act Buffer) → Threads → Option Threads
  perform_all [] s = some s
  perform_all (a ∷ rest) s = Option.bind (perform a s) (perform_all rest)

  unfoldable pub plan_act : Act Buffer → Plan → Plan
  unfolding store_in start_in
  plan_act (prepares body size callback) m = record {
    model = record m.model { next_id = (m.model.next_id + 1) % 2 ^ 32 };
    stage = update m.stage m.model.next_id (prepared (callback, take size body));
  }
  plan_act (stores t) m = store_in t (m.stage t) m
  plan_act (starts t) m = start_in t (m.stage t) m
  plan_act (comes e) m = record { model = model_step ops e m.model; stage = stage_after e m.stage }

  unfoldable pub plan_all : List (Act Buffer) → Plan → Plan
  plan_all [] m = m
  plan_all (a ∷ rest) m = plan_all rest (plan_act a m)

  -- The mars library comes back for tasks that it was asked to start and has not ended.
  abbrev pub Comes : Event Buffer → Plan → Type 0
  Comes (sends _ _ _) m = ⊥
  Comes (registers_push _) m = Unit
  Comes (registers_channel _) m = Unit
  Comes (asks t _) m = IsStarted (m.stage t)
  Comes (responds t _) m = IsStarted (m.stage t)
  Comes (ends t _ _) m = IsStarted (m.stage t)
  Comes (pushes _ _ _ _) m = m.model.next_id + 1 < 2 ^ 32
  Comes (reports _ _) m = Unit

  -- A call of `sendMessage` takes its steps in their order, and the numbers do not come round.
  abbrev pub Allowed : Act Buffer → Plan → Type 0
  Allowed (prepares body size callback) m =
      (size < 2 ^ 31) × (size ≤ length body) × (m.model.next_id + 1 < 2 ^ 32)
  Allowed (stores t) m = IsPrepared (m.stage t)
  Allowed (starts t) m = IsStored (m.stage t)
  Allowed (comes e) m = Sound ops e × Comes e m

  abbrev pub AllAllowed : List (Act Buffer) → Plan → Type 0
  AllAllowed [] m = Unit
  AllAllowed (a ∷ rest) m = Allowed a m × AllAllowed rest (plan_act a m)
