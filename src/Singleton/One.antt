-- ===== src/Singleton/One.antt =====
-- There is at most one object of a singleton class at a time.
use mars_wrapper.Prelude.{ℕ, ◌≤◌, ◌≡◌, Bool, false, Option, none, some, ◌==◌}
use mars_wrapper.Singleton.{Singleton}

-- Whether `p` is the current object.
abbrev pub is_current : Option ℕ → ℕ → Bool
is_current none p = false
is_current (some q) p = q == p

-- The object that the pointer names, and no other, is alive, and the addresses from `next` on are new.
pub record IsSingle (s : Singleton) : Type 0 where
  pub only : (p : ℕ) → s.alive p ≡ is_current s.current p
  pub fresh : (p : ℕ) → s.next ≤ p → s.alive p ≡ false
