-- ===== src/Memory.antt =====
-- What the program keeps in memory: its globals, the heap, and the calls that it made to the
-- outside, with the accesses that C++ gives them. A fault (undefined behaviour, or an assertion
-- that ends the process) is `none`.
pub mod Range
pub mod Access
use Prim.Native.String.{String}
use mars_wrapper.Prelude.{
  ℕ, suc, ◌+◌, ◌≡◌, List, [], ◌∷◌, Bool, true, false, Option, none, some, fun_ext, arith, ◌==◌,
  if◌then◌else◌,
}
use mars_wrapper.Prelude.Int.{ℤ}
use mars_wrapper.Xlog.{LogLevel}
use mars_wrapper.Mars.{StnCall, BaseCall, AppenderCall}
use mars_wrapper.Host.{Host}
use mars_wrapper.Memory.Range.{load_at, store_at}

-- Addresses are the serial numbers of the allocations; the null pointer is `none`.
abbrev pub Pointer : Type 0
Pointer = Option ℕ

-- TaskContext: `needAck` is indeterminate from construction on, which `none` stands for.
pub record TaskContext : Type 0 where
  pub need_ack : Option ℤ
  pub msg : Pointer
  pub size : ℕ
  pub resp_callback : Pointer

-- TaskContext()
abbrev pub default_context : TaskContext
default_context = record { need_ack = none; msg = none; size = 0; resp_callback = none }

-- An allocation: a block of bytes, an ImMessage (which holds `m_message`), or a TaskContext.
pub data Object : Type 0 where
  block : List ℕ → Object
  im_message : Pointer → Object
  task_context : TaskContext → Object

-- The program's calls of its user's listeners, and of the mars library.
pub data Call : Type 0 where
  on_response : ℕ → List ℕ → Call
  on_error : ℕ → ℤ → String → Call
  on_success : ℕ → Call
  on_push : ℕ → List ℕ → Call
  on_channel_status : ℕ → ℤ → Call
  to_stn : StnCall → Call
  to_base : BaseCall → Call
  to_appender : AppenderCall → Call
  set_level : LogLevel → Call
  set_app_callback : Call

-- `log` has the newest call first.
pub record World : Type 0 where
  pub message_id : ℕ
  pub cells : ℕ → Option Object
  pub next : ℕ
  pub contexts : ℕ → Option Pointer
  pub locked : Bool
  pub push_listener : Pointer
  pub channel_listener : Pointer
  pub log : List Call

-- Before the first call: numbers start at 10000, and nobody is registered.
abbrev pub initial : World
initial = record {
  message_id = 10000;
  cells = λ _. none;
  next = 0;
  contexts = λ _. none;
  locked = false;
  push_listener = none;
  channel_listener = none;
  log = [];
}

-- The listeners are as before.
abbrev pub SameListeners : World → World → Type 0
SameListeners w v = (v.push_listener ≡ w.push_listener) × (v.channel_listener ≡ w.channel_listener)

abbrev pub update {ℓ} : {A : Type ℓ} → (ℕ → A) → ℕ → A → ℕ → A
update f p v q = if p == q then v else f q

pub update-update {ℓ} :
    {A : Type ℓ} (f : ℕ → A) (p : ℕ) (v w : A) → update (update f p v) p w ≡ update f p w
update-update f p v w = fun_ext λ q. ground arith

abbrev pub M : Type 0 → Type 0
M A = World → Option (A × World)

abbrev pub pure : {A : Type 0} → A → M A
pure a w = some (a, w)

infixl 5 ◌>>=◌ ◌>>◌
abbrev pub ◌>>=◌ : {A B : Type 0} → M A → (A → M B) → M B
◌>>=◌ m f w = elim (m w) [ none ↦ none | some (a, w') ↦ f a w' ]

abbrev pub ◌>>◌ : {B : Type 0} → M (Unit {0}) → M B → M B
m >> k = m >>= λ _. k

-- A first step whose outcome is known.
pub >>=-some :
    {A B : Type 0} (m : M A) (f : A → M B) {w w' : World} {a : A}
    → m w ≡ some (a, w')
    → (m >>= f) w ≡ f a w'
>>=-some m f {w} e = rw (e, ◌>>=◌)

pub >>=-none : {A B : Type 0} (m : M A) (f : A → M B) {w : World} → m w ≡ none → (m >>= f) w ≡ none
>>=-none m f {w} e = rw (e, ◌>>=◌)

pub >>-some :
    {B : Type 0} (m : M (Unit {0})) (k : M B) {w w' : World}
    → m w ≡ some (tt, w')
    → (m >> k) w ≡ k w'
>>-some m k e = >>=-some m (λ _. k) e

pub >>-none : {B : Type 0} (m : M (Unit {0})) (k : M B) {w : World} → m w ≡ none → (m >> k) w ≡ none
>>-none m k e = >>=-none m (λ _. k) e

abbrev pub fault : {A : Type 0} → M A
fault w = none

-- A part of a computation that leaves the state alone.
abbrev pub lift : {A : Type 0} → Option A → M A
lift none w = none
lift (some a) w = some (a, w)

abbrev pub call : Call → M (Unit {0})
call c w = some (tt, record w { log = c ∷ w.log })

abbrev pub put_cell : World → ℕ → Option Object → World
put_cell w p o = record w { cells = update w.cells p o }

-- `new`: a fresh address.
abbrev pub new_object : Object → M ℕ
new_object o w =
    some (w.next, record w { next = suc w.next; cells = update w.cells w.next (some o) })

abbrev pub malloc : ⦃h : Host⦄ → ℕ → M ℕ
malloc ⦃h⦄ n w = new_object (block (h.malloc w.next n)) w

-- A typed read of the object at an address.
abbrev pub as_block : Option Object → Option (List ℕ)
as_block (some (block b)) = some b
as_block _ = none

abbrev pub as_message : Option Object → Option Pointer
as_message (some (im_message m)) = some m
as_message _ = none

abbrev pub as_context : Option Object → Option TaskContext
as_context (some (task_context c)) = some c
as_context _ = none

abbrev pub cell_at : World → Pointer → Option Object
cell_at w none = none
cell_at w (some p) = w.cells p

unfoldable pub read_block : Pointer → M (List ℕ)
read_block p w = lift (as_block (cell_at w p)) w

unfoldable pub read_message : Pointer → M Pointer
read_message p w = lift (as_message (cell_at w p)) w

unfoldable pub read_context : Pointer → M TaskContext
read_context p w = lift (as_context (cell_at w p)) w

unfoldable pub write_block : Pointer → List ℕ → M (Unit {0})
write_block none b w = none
write_block (some p) b w = some (tt, put_cell w p (some (block b)))

-- `free` of a block and `delete` of an object: a second one faults, and null is let through.
unfoldable pub free : Pointer → M (Unit {0})
unfolding read_block
free none w = some (tt, w)
free (some p) w = (do b ← read_block (some p); λ v. some (tt, put_cell v p none)) w

unfoldable pub delete_context : Pointer → M (Unit {0})
unfolding read_context
delete_context none w = some (tt, w)
delete_context (some p) w = (do c ← read_context (some p); λ v. some (tt, put_cell v p none)) w

-- `n` bytes from `src` to the offset `off` of the block.
unfoldable pub memcpy : Pointer → ℕ → List ℕ → ℕ → M (Unit {0})
unfolding read_block write_block
memcpy p off src n = do
  b ← read_block p
  chunk ← lift (load_at 0 n src)
  b' ← lift (store_at off chunk b)
  write_block p b'

unfoldable pub load32 : ⦃h : Host⦄ → Pointer → ℕ → M ℕ
unfolding read_block
load32 ⦃h⦄ p off = do b ← read_block p; bs ← lift (load_at off 4 b); pure (h.value32 bs)

unfoldable pub store32 : ⦃h : Host⦄ → Pointer → ℕ → ℕ → M (Unit {0})
unfolding memcpy
store32 ⦃h⦄ p off v = memcpy p off (h.bytes32 v) 4
