-- ===== src/Proxy/Class.antt =====
-- The class MarsTaskProxy of src/proxy/mars_task_proxy.h as an interface: what its functions promise of
-- the map, whatever fills it.
use mars_wrapper.Prelude.{ℕ, ◌≡◌, ◌≢◌, refl, ◌∙◌, List, [], ◌∷◌, none, some, false, arith}
use mars_wrapper.Prelude.Int.{ℤ}
use mars_wrapper.Memory.{update, >>=-some, World, Pointer, M, ◌>>◌, pure, >>-some}
use mars_wrapper.Proxy.{
  lock, unlock, get_task_context, store_context, remove_task_context, remove_found, reset,
  redo_tasks,
}

-- The map and its mutex are in the state. `reportChannelStatus` is declared, and nothing is said of it.
pub record MarsTaskProxy : Type 0 where
  pub store_context : ℕ → Pointer → M (Unit {0})
  pub reset : M (Unit {0})
  pub redo_tasks : M (Unit {0})
  pub get_task_context : ℕ → M Pointer
  pub remove_task_context : ℕ → M (Unit {0})
  pub report_channel_status : ℤ → M (Unit {0})
  -- A look-up finds what was stored last, and changes nothing.
  pub get-store :
      (w : World) (t : ℕ) (c : Pointer)
      → w.locked ≡ false
      → (v : World) × (store_context t c w ≡ some (tt, v))
        × (v.locked ≡ false)
        × (get_task_context t v ≡ some (c, v))
        × ((s : ℕ) (x : Pointer)
            → s ≢ t
            → get_task_context s w ≡ some (x, w)
            → get_task_context s v ≡ some (x, v))
  -- There is nothing to remove where the look-up is null.
  pub remove-get :
      (w : World) (t : ℕ)
      → get_task_context t w ≡ some (none, w)
      → remove_task_context t w ≡ some (tt, w)

pub stored : World → ℕ → Pointer → World
stored w t c = record w { contexts = update w.contexts t (some c); locked = false }

pub store_context_lem :
    (w : World) (t : ℕ) (c : Pointer)
    → w.locked ≡ false
    → store_context t c w ≡ some (tt, stored w t c)
unfolding store_context lock unlock get_task_context stored
store_context_lem w t c free = ground (arith, free)

pub is_unlocked : (w : World) (t : ℕ) (c : Pointer) → (stored w t c).locked ≡ false
unfolding stored
is_unlocked w t c = refl

pub get_task_context_stored :
    (w : World) (t : ℕ) (c : Pointer) → get_task_context t (stored w t c) ≡ some (c, stored w t c)
unfolding get_task_context stored
get_task_context_stored w t c = ground arith

pub get_task_context_other :
    (w : World) (t s : ℕ) (c x : Pointer)
    → s ≢ t
    → get_task_context s w ≡ some (x, w)
    → get_task_context s (stored w t c) ≡ some (x, stored w t c)
unfolding get_task_context stored
get_task_context_other w t s c x other e = ground (arith, other, e)

pub remove_task_context_none :
    (w : World) (t : ℕ)
    → get_task_context t w ≡ some (none, w)
    → remove_task_context t w ≡ some (tt, w)
unfolding remove_task_context remove_found
remove_task_context_none w t e = >>=-some (get_task_context t) _ e

module _ (report : ℤ → M (Unit {0})) where
  abbrev pub mars_task_proxy : MarsTaskProxy
  mars_task_proxy = record {
    store_context = store_context;
    reset = reset;
    redo_tasks = redo_tasks;
    get_task_context = get_task_context;
    remove_task_context = remove_task_context;
    report_channel_status = report;
    get-store = λ w t c free. (
      stored w t c,
      store_context_lem w t c free,
      is_unlocked w t c,
      get_task_context_stored w t c,
      λ s x. get_task_context_other w t s c x,
    );
    remove-get = remove_task_context_none;
  }

-- A client that has the interface alone: what it stores under one number after another, it finds.
store_all : MarsTaskProxy → List (ℕ × Pointer) → M (Unit {0})
store_all proxy [] = pure tt
store_all proxy ((t, c) ∷ cs) = do proxy.store_context t c; store_all proxy cs

IsOther : ℕ → List (ℕ × Pointer) → Type 0
IsOther s [] = Unit
IsOther s ((t, c) ∷ cs) = (s ≢ t) × IsOther s cs

module _ (proxy : MarsTaskProxy) where
  store_all-get :
      (cs : List (ℕ × Pointer)) (w : World) (s : ℕ) (x : Pointer)
      → w.locked ≡ false
      → IsOther s cs
      → proxy.get_task_context s w ≡ some (x, w)
      → (v : World) × (store_all proxy cs w ≡ some (tt, v))
        × (proxy.get_task_context s v ≡ some (x, v))
  unfolding store_all IsOther
  store_all-get [] w s x free other e = (w, refl, e)
  store_all-get ((t, c) ∷ cs) w s x free (here, there) e =
      let (u, stored_u, free_u, _, kept) = proxy.get-store w t c free in
      let (v, later, found_v) = store_all-get cs u s x free_u there (kept s x here e) in
      (v, >>-some (proxy.store_context t c) (store_all proxy cs) stored_u ∙ later, found_v)
