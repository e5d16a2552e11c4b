-- ===== src/Singleton.antt =====
-- The objects that are made on first use: `Instance` and `Release` of StnCallBack
-- (src/proxy/stn_callback.cpp) and AppCallBack (src/proxy/app_callback.cpp), and `singleInstance` of
-- SocketsListener (demo/TcpEchoServer/TcpEchoServer.cpp). A state has the static pointer, and which
-- of the objects made so far are alive.
pub mod One
pub mod Race
use mars_wrapper.Prelude.{ℕ, suc, Bool, true, false, Option, none, some, List, [], ◌∷◌}
use mars_wrapper.Memory.{update}

pub record Singleton : Type 0 where
  pub current : Option ℕ
  pub next : ℕ
  pub alive : ℕ → Bool

abbrev pub no_instance : Singleton
no_instance = record { current = none; next = 0; alive = λ _. false }

-- `_instance = new ...`
abbrev pub make_instance : Singleton → Singleton
make_instance s = record {
  current = some s.next;
  next = suc s.next;
  alive = update s.alive s.next true;
}

-- `Instance`, with no other thread between its test and its return.
unfoldable pub get_instance : Singleton → ℕ × Singleton
get_instance s = elim s.current [ none ↦ (s.next, make_instance s) | some p ↦ (p, s) ]

-- `delete` of null does nothing, and of an object that is not alive it is a fault.
unfoldable pub release : Singleton → Option Singleton
release s = elim s.current [
  | none ↦ some s
  | some p ↦ elim (s.alive p) [
    | false ↦ none
    | true ↦ some (record s { current = none; alive = update s.alive p false })
  ]
]

abbrev pub stn_instance : Singleton → ℕ × Singleton
stn_instance = get_instance

abbrev pub stn_release : Singleton → Option Singleton
stn_release = release

abbrev pub app_instance : Singleton → ℕ × Singleton
app_instance = get_instance

abbrev pub app_release : Singleton → Option Singleton
app_release = release

-- It has no `Release`.
abbrev pub single_instance : Singleton → ℕ × Singleton
single_instance = get_instance

pub data Use : Type 0 where
  gets : Use
  releases : Use

-- Calls one after another; a fault ends them.
unfoldable pub use_all : List Use → Singleton → Option Singleton
use_all [] s = some s
use_all (gets ∷ us) s = use_all us ((get_instance s).1)
use_all (releases ∷ us) s = elim (release s) [ none ↦ none | some s' ↦ use_all us s' ]
