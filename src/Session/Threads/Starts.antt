-- ===== src/Session/Threads/Starts.antt =====
-- What the mars library is asked for by threads that send at once.
use mars_wrapper.Prelude.{ℕ, ◌+◌, List, [], ◌∷◌, ◌==◌, if◌then◌else◌}
use mars_wrapper.Host.{Host}
use mars_wrapper.Mars.{start_task}
use mars_wrapper.Memory.{Call, to_stn}
use mars_wrapper.Plus.{request_task}
use mars_wrapper.Session.Threads.{
  Act, prepares, stores, starts, comes, Threads, Stage, unused, prepared, stored, started, over,
}

-- The requests of a schedule to the library, after those made before, the newest first.
abbrev pub requests_of : ⦃h : Host⦄ → {Buffer : Type 0} → List (Act Buffer) → List Call → List Call
requests_of [] before = before
requests_of (starts t ∷ acts) before =
    requests_of acts (to_stn (start_task (request_task t)) ∷ before)
requests_of (prepares _ _ _ ∷ acts) before = requests_of acts before
requests_of (stores _ ∷ acts) before = requests_of acts before
requests_of (comes _ ∷ acts) before = requests_of acts before

-- How often a schedule starts the task `t`.
abbrev pub times : {Buffer : Type 0} → ℕ → List (Act Buffer) → ℕ
times t [] = 0
times t (starts s ∷ acts) = (if s == t then 1 else 0) + times t acts
times t (prepares _ _ _ ∷ acts) = times t acts
times t (stores _ ∷ acts) = times t acts
times t (comes _ ∷ acts) = times t acts

abbrev pub starts_by : Stage → ℕ
starts_by unused = 0
starts_by (prepared r) = 0
starts_by (stored r) = 0
starts_by (started r) = 1
starts_by over = 1
