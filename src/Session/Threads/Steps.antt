-- ===== src/Session/Threads/Steps.antt =====
-- One step of the threads, or one callback: what the memory holds for each stage is kept.
use mars_wrapper.Prelude.{
  ℕ, suc, ◌<◌, ◌≡◌, refl, sym, ap, subst, ◌∙◌, List, [], ◌∷◌, some, arith, take, ℕ_discrete, ◌==◌,
  if◌then◌else◌,
}
use mars_wrapper.Host.{Host}
use mars_wrapper.Buffer.{AutoBuffer}
use mars_wrapper.Mars.{start_task}
use mars_wrapper.Memory.{World, Pointer, update, to_stn}
use mars_wrapper.Proxy.Owned.{Request, Entry, Inv, pending, request_of, store_context_lem}
use mars_wrapper.Proxy.Keep.{Entry-grown, request_of-Entry-grown, Entry-kept, request_of-Entry-kept}
use mars_wrapper.Proxy.Store.{linked, linked-Inv, pending-linked}
use mars_wrapper.Callback.TaskEnd.{told, told-Inv, pending-told, no_context}
use mars_wrapper.Plus.{request_task}
use mars_wrapper.Plus.Prepare as Prepare
use mars_wrapper.Plus.Prepare.{
  prepare_lem, prepared-Inv, prepared-Entry, request_of-prepared-Entry, pending-prepared, spared,
}
use mars_wrapper.Session.{
  Event, sends, registers_push, registers_channel, asks, responds, pushes, ends, reports, view,
  state,
}
use mars_wrapper.Session.Refinement.{model_eq, step-Refines}
use mars_wrapper.Session.Threads.{
  Act, prepares, stores, starts, comes, Threads, with_world, with_local, Stage, prepared, stored,
  started, Plan, waits, perform, plan_act, stage_after, Allowed,
}
use mars_wrapper.Session.Threads.Stages.{IsOrderly, plan_act-IsOrderly}
use mars_wrapper.Session.Threads.Spared.{step-Spares}

module _ ⦃h : Host⦄ where
  abbrev pub Holds : World → ℕ → Pointer → Request → Type 0
  Holds w t ctx r = (e : Entry w t ctx) × (request_of e ≡ r)

  abbrev pub plan_of : Threads → (ℕ → Stage) → Plan
  plan_of s g = record { model = view s.world; stage = g }

  -- The state of the threads, with the stages of the tasks.
  pub record IsGood (s : Threads) (g : ℕ → Stage) : Type 0 where
    pub inv : Inv s.world
    pub orderly : IsOrderly (plan_of s g)
    pub held : (t : ℕ) (r : Request) → g t ≡ prepared r → Holds s.world t (s.local t) r

  Holds-grown :
      {w : World} (v : World) (inv : Inv w)
      → ((p : ℕ) → p < w.next → v.cells p ≡ w.cells p)
      → {t : ℕ} {c : Pointer} {r : Request} → Holds w t c r
      → Holds v t c r
  Holds-grown v inv keeps (e, same) =
      (Entry-grown v inv keeps e, request_of-Entry-grown v inv keeps e ∙ same)

  moved :
      (v : World) {t u : ℕ} {c d : Pointer} {q r : Request}
      → t ≡ u
      → c ≡ d
      → q ≡ r
      → Holds v t c q
      → Holds v u d r
  moved v {t} {u} {c} {d} {q} {r} p o e held =
      subst (λ x. Holds v x d r) p
        (subst (λ x. Holds v t x r) o (subst (λ x. Holds v t c x) e held))

  stage_before :
      {Buffer : Type 0} (e : Event Buffer) (g : ℕ → Stage) (t : ℕ) (r : Request)
      → stage_after e g t ≡ prepared r
      → g t ≡ prepared r
  stage_before (ends s _ _) g t r at = ground (arith, at)
  stage_before (asks _ _) g t r at = at
  stage_before (responds _ _) g t r at = at
  stage_before (sends _ _ _) g t r at = at
  stage_before (registers_push _) g t r at = at
  stage_before (registers_channel _) g t r at = at
  stage_before (pushes _ _ _ _) g t r at = at
  stage_before (reports _ _) g t r at = at

  module _ {Buffer : Type 0} (ops : AutoBuffer Buffer) {s : Threads} {g : ℕ → Stage}
      (good : IsGood s g) where
    abbrev pub Advances : Act Buffer → Type 0
    Advances a =
        (u : Threads) × (k : ℕ → Stage) × (perform ops a s ≡ some u)
        × (plan_act ops a (plan_of s g) ≡ plan_of u k)
        × IsGood u k

    -- The plan stays orderly, so a step has to be shown for the memory alone.
    advances :
        (a : Act Buffer) (u : Threads) (k : ℕ → Stage)
        → Allowed ops a (plan_of s g)
        → perform ops a s ≡ some u
        → plan_act ops a (plan_of s g) ≡ plan_of u k
        → Inv u.world
        → ((t : ℕ) (r : Request) → k t ≡ prepared r → Holds u.world t (u.local t) r)
        → Advances a
    advances a u k allowed run same inv held = (
      u,
      k,
      run,
      same,
      record {
        inv = inv;
        orderly = subst IsOrderly same (plan_act-IsOrderly ops good.orderly a allowed);
        held = held;
      },
    )

    prepares-Advances :
        (body : List ℕ) (size : ℕ) (callback : Pointer)
        → Allowed ops (prepares body size callback) (plan_of s g)
        → Advances (prepares body size callback)
    unfolding perform plan_act
    prepares-Advances body size callback (small, readable, fits) =
        let w = s.world in
        let v = Prepare.prepared w body size callback in
        let ctx : Pointer = some (suc (suc w.next)) in
        let k = update g w.message_id (prepared (callback, take size body)) in
        advances (prepares body size callback)
          (record { world = v; local = update s.local w.message_id ctx }) k (small, readable, fits)
          (ap (with_local s) (prepare_lem w body size callback small readable good.inv.id_fits))
          (ap (λ m. record { model = m; stage = k })
            (model_eq refl (λ t. sym (pending-prepared good.inv body size callback t)) refl refl
              refl))
          (prepared-Inv good.inv body size callback)
          (λ t r at. elim (ℕ_discrete w.message_id t) [
            | yes own ↦ moved v own (ground (arith, own)) (ground (arith, at, own)) (
              prepared-Entry good.inv body size callback small readable,
              request_of-prepared-Entry good.inv body size callback small readable,
            )
            | no other ↦ moved v refl (ground (arith, other)) refl (
                Holds-grown v good.inv (spared good.inv body size callback)
                  (good.held t r (ground (arith, at, other))))
          ])

    stores-Advances : (t : ℕ) → Allowed ops (stores t) (plan_of s g) → Advances (stores t)
    unfolding perform plan_act
    stores-Advances t (r, at) =
        let (e, same) = good.held t r at in
        let k = update g t (stored r) in
        advances (stores t) (record s { world = linked good.inv e }) k (r, at)
          (ap (λ o. with_world s (state o))
            (store_context_lem s.world t (s.local t) good.inv.unlocked))
          (rw at (
            ap (λ m. record { model = m; stage = k })
              (model_eq refl
                (λ q. sym (
                  pending-linked good.inv e q
                  ∙ ap (λ x. if t == q then some x else pending s.world q) same))
                refl refl refl)))
          (linked-Inv good.inv e)
          (λ q r' at'.
            Holds-grown (linked good.inv e) good.inv (λ p _. refl)
              (good.held q r' (ground (arith, at'))))

    starts-Advances : (t : ℕ) → Allowed ops (starts t) (plan_of s g) → Advances (starts t)
    unfolding perform plan_act
    starts-Advances t (r, at) =
        let calls = to_stn (start_task (request_task t)) ∷ [] in
        let k = update g t (started r) in
        advances (starts t) (record s { world = told s.world calls }) k (r, at) refl
          (rw at (
            ap (λ m. record { model = m; stage = k })
              (model_eq refl (λ q. sym (pending-told good.inv calls q)) refl refl refl)))
          (told-Inv good.inv calls)
          (λ q r' at'.
            Holds-grown (told s.world calls) good.inv (λ p _. refl)
              (good.held q r' (ground (arith, at'))))

    comes-Advances : (e : Event Buffer) → Allowed ops (comes e) (plan_of s g) → Advances (comes e)
    unfolding perform plan_act
    comes-Advances e (sound, at) =
        let (v, run, vinv, same) = step-Refines ops good.inv e sound in
        let k = stage_after e g in
        advances (comes e) (record s { world = v }) k (sound, at) (ap (with_world s) run)
          (ap (λ m. record { model = m; stage = k }) (sym same)) vinv
          (λ t r now.
            (let before = stage_before e g t r now in
              let (f, is) = good.held t r before in
              let free = no_context good.inv (good.orderly.waiting t ∙ ap waits before) in
              let (x, y, z) =
                step-Spares ops good.inv e (plan_of s g) at sound run t (s.local t) f free in
              (Entry-kept v f x y z, request_of-Entry-kept v f x y z ∙ is)))

    pub perform-Advances : (a : Act Buffer) → Allowed ops a (plan_of s g) → Advances a
    perform-Advances (prepares body size callback) allowed =
        prepares-Advances body size callback allowed
    perform-Advances (stores t) allowed = stores-Advances t allowed
    perform-Advances (starts t) allowed = starts-Advances t allowed
    perform-Advances (comes e) allowed = comes-Advances e allowed
