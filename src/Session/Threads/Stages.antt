-- ===== src/Session/Threads/Stages.antt =====
-- The stages of the tasks, and the requests that wait: what the plan keeps at every step.
use mars_wrapper.Prelude.{ℕ, ◌≤◌, ◌≡◌, refl, arith}
use mars_wrapper.Host.{Host}
use mars_wrapper.Buffer.{AutoBuffer}
use mars_wrapper.Memory.{initial}
use mars_wrapper.Proxy.Owned.{pending-none}
use mars_wrapper.Session.{
  Event, sends, registers_push, registers_channel, asks, responds, pushes, ends, reports,
  model_step,
}
use mars_wrapper.Session.Threads.{
  Act, prepares, stores, starts, comes, unused, Plan, plan_start, waits, plan_act, Allowed, Comes,
}

pub record IsOrderly (m : Plan) : Type 0 where
  pub waiting : (t : ℕ) → m.model.waiting t ≡ waits (m.stage t)
  pub above : (t : ℕ) → m.model.next_id ≤ t → m.stage t ≡ unused

module _ ⦃h : Host⦄ {Buffer : Type 0} (ops : AutoBuffer Buffer) {m : Plan}
    (orderly : IsOrderly m) where
  comes-IsOrderly : (e : Event Buffer) → Comes ops e m → IsOrderly (plan_act ops (comes e) m)
  unfolding plan_act model_step
  comes-IsOrderly (sends _ _ _) at = absurd at
  comes-IsOrderly (registers_push _) at = record {
    waiting = orderly.waiting;
    above = orderly.above;
  }
  comes-IsOrderly (registers_channel _) at = record {
    waiting = orderly.waiting;
    above = orderly.above;
  }
  comes-IsOrderly (asks _ _) at = record { waiting = orderly.waiting; above = orderly.above }
  comes-IsOrderly (responds _ _) at = record { waiting = orderly.waiting; above = orderly.above }
  comes-IsOrderly (reports _ _) at = record { waiting = orderly.waiting; above = orderly.above }
  comes-IsOrderly (pushes _ _ _ _) fits = record {
    waiting = orderly.waiting;
    above = λ s high. orderly.above s (omega (arith, high, fits));
  }
  comes-IsOrderly (ends t _ _) (r, is) = record {
    waiting = λ s. ground (arith, orderly.waiting s);
    above = λ s high. ground (arith, orderly.above s high, is);
  }

  pub plan_act-IsOrderly : (a : Act Buffer) → Allowed ops a m → IsOrderly (plan_act ops a m)
  unfolding plan_act
  plan_act-IsOrderly (prepares body size callback) (_, _, fits) = record {
    waiting = λ s. ground (arith, orderly.waiting s, orderly.above m.model.next_id);
    above = λ s high. ground (arith, orderly.above s, high, fits);
  }
  plan_act-IsOrderly (stores t) (r, is) = rw is (record {
    waiting = λ s. ground (arith, orderly.waiting s);
    above = λ s high. ground (arith, orderly.above s high, is);
  })
  plan_act-IsOrderly (starts t) (r, is) = rw is (record {
    waiting = λ s. ground (arith, orderly.waiting s, is);
    above = λ s high. ground (arith, orderly.above s high, is);
  })
  plan_act-IsOrderly (comes e) (_, at) = comes-IsOrderly e at

pub start-IsOrderly : ⦃h : Host⦄ → IsOrderly plan_start
start-IsOrderly = record { waiting = λ t. pending-none initial t refl; above = λ t high. refl }
