-- ===== src/Session/Threads/Refinement.antt =====
-- Threads that send at once refine the plan: nothing faults, and each request waits from the time it is in
-- the map until the mars library has ended its task.
use mathlib.Core.Option
use mars_wrapper.Prelude.{
  ℕ, suc, ◌^◌, ◌≤◌, ◌<◌, ◌≡◌, refl, sym, ap, subst, ◌∙◌, List, [], ◌∷◌, some, false, arith, length,
}
use mars_wrapper.Prelude.Int.{pos}
use mars_wrapper.Host.{Host}
use mars_wrapper.Buffer.{AutoBuffer}
use mars_wrapper.Memory.{Pointer, update}
use mars_wrapper.Proxy.Owned.{Inv, pending, initial-Inv, store_context_lem}
use mars_wrapper.Plus.{send_message}
use mars_wrapper.Plus.Send.{sent, send_message_lem}
use mars_wrapper.Plus.Prepare as Prepare
use mars_wrapper.Plus.Prepare.{
  prepare_lem, prepared-Inv, prepared-Entry, request_of-prepared-Entry, pending-prepared, spared,
}
use mars_wrapper.Session.{view}
use mars_wrapper.Session.Threads.{
  Act, prepares, stores, starts, Threads, threads_start, Stage, unused, plan_start, waits, perform,
  perform_all, plan_all, AllAllowed,
}
use mars_wrapper.Session.Threads.Stages.{start-IsOrderly}
use mars_wrapper.Session.Threads.Steps.{IsGood, plan_of, perform-Advances}

module _ ⦃h : Host⦄ where
  module _ {Buffer : Type 0} (ops : AutoBuffer Buffer) where
    run-IsGood :
        (acts : List (Act Buffer)) {s : Threads} {g : ℕ → Stage}
        → IsGood s g
        → AllAllowed ops acts (plan_of s g)
        → (u : Threads) × (k : ℕ → Stage) × (perform_all ops acts s ≡ some u)
          × (plan_all ops acts (plan_of s g) ≡ plan_of u k)
          × IsGood u k
    unfolding perform_all plan_all Option.bind
    run-IsGood [] {s} {g} good allowed = (s, g, refl, refl, good)
    run-IsGood (a ∷ acts) good (allowed, rest) =
        let (u, k, first, same, good') = perform-Advances ops good a allowed in
        let (v, l, later, same', good'') =
          run-IsGood acts good' (subst (AllAllowed ops acts) same rest) in
        (v, l, rw first later, ap (plan_all ops acts) same ∙ same', good'')

    start-IsGood : IsGood threads_start (λ _. unused)
    start-IsGood = record {
      inv = initial-Inv;
      orderly = start-IsOrderly;
      held = λ t r at. absurd (cc at);
    }

    -- Any number of threads send, in any interleaving of the three steps of `sendMessage`, each taken
    -- whole, with one another and with the callbacks of the mars library for the tasks that it has started
    -- and not ended, all of them sound, and fewer than 2 ^ 32 - 10000 numbers are used (`AllAllowed`):
    -- nothing faults, the memory is well formed, and the next number, the requests that wait, the
    -- listeners and the calls made are those of the plan. So each request waits, with its listener and
    -- its bytes, from its `storeContext` on, and whenever the library knows its task; it does not
    -- before, nor after the task has ended.
    pub run_threads :
        (acts : List (Act Buffer))
        → AllAllowed ops acts plan_start
        → (v : Threads) × (perform_all ops acts threads_start ≡ some v)
          × Inv v.world
          × (view v.world ≡ (plan_all ops acts plan_start).model)
          × ((t : ℕ) → pending v.world t ≡ waits ((plan_all ops acts plan_start).stage t))
    run_threads acts allowed =
        let (v, k, run, same, good) = run-IsGood acts start-IsGood allowed in
        (
          v,
          run,
          good.inv,
          sym (ap (λ m. m.model) same),
          λ t. good.orderly.waiting t ∙ ap (λ m. waits (m.stage t)) (sym same),
        )

    -- The three steps with nothing in between are `sendMessage`.
    send_message-perform_all :
        (s : Threads) (body : List ℕ) (size : ℕ) (callback : Pointer)
        → size < 2 ^ 31
        → size ≤ length body
        → s.world.message_id < 2 ^ 32
        → s.world.locked ≡ false
        → (u : Threads) × (perform_all ops
              (prepares body size callback
                ∷ stores s.world.message_id
                ∷ starts s.world.message_id
                ∷ [])
              s
            ≡ some u)
          × (send_message body size callback s.world ≡ some (pos 0, u.world))
    unfolding perform_all perform Option.bind
    send_message-perform_all s body size callback small readable fits unlocked =
        let w = s.world in
        let ctx : Pointer = some (suc (suc w.next)) in
        let v = Prepare.prepared w body size callback in
        let own : update s.local w.message_id ctx w.message_id ≡ ctx = ground arith in
        (
          record { world = sent w body size callback; local = update s.local w.message_id ctx },
          rw
              (
                prepare_lem w body size callback small readable fits,
                own,
                store_context_lem v w.message_id ctx unlocked,
              )
              refl,
          send_message_lem w body size callback small readable fits unlocked,
        )
