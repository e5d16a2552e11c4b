-- ===== src/Session/Drain.antt =====
-- After the end of every task, nothing is left.
use mars_wrapper.Prelude.{
  ℕ, zero, suc, ◌+◌, ◌^◌, ◌≤◌, ◌<◌, ◌≡◌, refl, sym, ap, subst, ◌∙◌, inl, inr, List, [], ◌∷◌, none,
  some, arith, dec_lt, Option-cases,
}
use mars_wrapper.Prelude.Int.{ℤ}
use mars_wrapper.Host.{Host}
use mars_wrapper.Buffer.{AutoBuffer}
use mars_wrapper.Memory.{World, initial}
use mars_wrapper.Proxy.Owned.{Inv, initial-Inv, pending, pending-none}
use mars_wrapper.Proxy.Leaks.{AllOwned, initial-AllOwned}
use mars_wrapper.Callback.TaskEnd.{no_context}
use mars_wrapper.Session.{
  Event, sends, registers_push, registers_channel, asks, responds, pushes, ends, reports, Model,
  view, run, model_step, model_run, AllSound,
}
use mars_wrapper.Session.Numbers.{Free, used, all_used, step_counts, nothing_waits, run_counts}
use mars_wrapper.Session.Leaks.{clean_run}

-- Nothing waits under a number that was not given out.
abbrev Low : Model → Type 0
Low m = (10000 ≤ m.next_id) × ((t : ℕ) → t < 10000 → m.waiting t ≡ none)

module _ ⦃h : Host⦄ {Buffer : Type 0} (ops : AutoBuffer Buffer) where
  step-Low :
      (e : Event Buffer) (m : Model)
      → m.next_id + used e < 2 ^ 32
      → Low m
      → Low (model_step ops e m)
  unfolding model_step
  step-Low (sends body size callback) m fits (above, low) =
      (omega (arith, above), λ t small. ground (arith, low t, above))
  step-Low (pushes channel_id cmdid taskid body) m fits (above, low) = (omega (arith, above), low)
  step-Low (registers_push listener) m fits low = low
  step-Low (registers_channel listener) m fits low = low
  step-Low (asks taskid out) m fits low = low
  step-Low (responds taskid inbuffer) m fits low = low
  step-Low (ends taskid error_type error_code) m fits (above, low) =
      (above, λ t small. ground (arith, low t))
  step-Low (reports status longlink_status) m fits low = low

  run-Low :
      (es : List (Event Buffer)) (m : Model)
      → m.next_id + all_used es < 2 ^ 32
      → Free m
      → Low m
      → Low (model_run ops es m)
  unfolding model_run
  run-Low [] m fits free low = low
  run-Low (e ∷ es) m fits free low =
      let (next, free') = step_counts ops e m (omega arith) free in
      run-Low es (model_step ops e m) (omega (arith, next)) free' (step-Low e m (omega arith) low)

  -- The ends of `k` tasks, from the number `n` on.
  abbrev pub ends_from : ℕ → ℕ → ℕ → ℤ → List (Event Buffer)
  ends_from n zero error_type error_code = []
  ends_from n (suc k) error_type error_code =
      ends n error_type error_code ∷ ends_from (n + 1) k error_type error_code

  module _ (error_type : ℕ) (error_code : ℤ) where
    ends_from-AllSound : (n k : ℕ) → AllSound ops (ends_from n k error_type error_code)
    ends_from-AllSound n zero = tt
    ends_from-AllSound n (suc k) = (tt, ends_from-AllSound (n + 1) k)

    ends_from_used : (n k : ℕ) → all_used (ends_from n k error_type error_code) ≡ 0
    ends_from_used n zero = refl
    ends_from_used n (suc k) = omega (arith, ends_from_used (n + 1) k)

    ends_from_waiting :
        (n k : ℕ) (m : Model)
        → ((t : ℕ) → t < n → m.waiting t ≡ none)
        → ((t : ℕ) → n + k ≤ t → m.waiting t ≡ none)
        → (t : ℕ) → (model_run ops (ends_from n k error_type error_code) m).waiting t ≡ none
    unfolding model_run model_step
    ends_from_waiting n zero m low high t = elim (dec_lt t n) [
      | yes below ↦ low t below
      | no above ↦ high t (omega arith)
    ]
    ends_from_waiting n (suc k) m low high t =
        ends_from_waiting (n + 1) k (model_step ops (ends n error_type error_code) m)
          (λ s small. ground (arith, low s)) (λ s large. ground (arith, high s)) t

    -- Where each allocation has an owner in the map and nothing waits, nothing is allocated.
    nothing_left :
        (v : World)
        → Inv v
        → AllOwned v
        → ((t : ℕ) → pending v t ≡ none)
        → (p : ℕ) → v.cells p ≡ none
    nothing_left v inv all quiet p = elim (Option-cases (v.cells p)) [
      | inl free ↦ free
      | inr (o, held) ↦
          let (t, (a, there, _)) = all p o held in absurd (cc (there, no_context inv (quiet t)))
    ]

    -- From the program's start, a session whose sizes and response headers are sound (`AllSound`), and
    -- that uses fewer than 2 ^ 32 - 10000 numbers, can be brought to its end: if the mars library then
    -- reports the end of each number from 10000 on that was used, in that order, with any result,
    -- nothing faults, no request waits, and nothing is allocated any more.
    pub run-ends_from :
        (es : List (Event Buffer))
        → AllSound ops es
        → 10000 + all_used es < 2 ^ 32
        → (v : World) × (u : World) × (run ops es initial ≡ some v)
          × (run ops (ends_from 10000 (all_used es) error_type error_code) v ≡ some u)
          × ((t : ℕ) → pending u t ≡ none)
          × ((p : ℕ) → u.cells p ≡ none)
    run-ends_from es sound few =
        let k = all_used es in
        let (v, ran, vinv, vall, view_v) =
          clean_run ops es initial-Inv initial-AllOwned sound few (nothing_waits ops) in
        let (next, free) = run_counts ops es (view initial) few (nothing_waits ops) in
        let (_, low) =
          run-Low es (view initial) few (nothing_waits ops)
            (omega arith, λ t small. nothing_waits_low t) in
        let id : v.message_id ≡ 10000 + k = ap (λ m. m.next_id) view_v ∙ next in
        let (u, ended, uinv, uall, view_u) =
          clean_run ops (ends_from 10000 k error_type error_code) vinv vall
            (ends_from-AllSound 10000 k) (omega (arith, id, ends_from_used 10000 k))
            (subst Free (sym view_v) free) in
        let quiet : (t : ℕ) → pending u t ≡ none = λ t.
          ap (λ m. m.waiting t) view_u
          ∙ ends_from_waiting 10000 k (view v)
              (λ s small. ap (λ m. m.waiting s) view_v ∙ low s small)
              (λ s large. ap (λ m. m.waiting s) view_v ∙ free s (omega (arith, next, large))) t in
        (v, u, ran, ended, quiet, nothing_left u uinv uall quiet)
      where
        nothing_waits_low : (t : ℕ) → pending initial t ≡ none
        nothing_waits_low t = pending-none initial t refl
