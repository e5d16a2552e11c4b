-- ===== src/Proxy.antt =====
-- src/proxy/mars_task_proxy.cpp: the map from task numbers to the contexts of their requests.
pub mod Owned
pub mod Keep
pub mod Remove
pub mod Store
pub mod Leaks
pub mod Class
pub mod Threads
use mars_wrapper.Prelude.{ℕ, Option, none, some, true, false, if◌then◌else◌}
use mars_wrapper.Mars
use mars_wrapper.Memory.{
  World, Pointer, TaskContext, M, pure, ◌>>=◌, ◌>>◌, lift, call, to_stn, update, put_cell,
  read_message, read_context, delete_context, free, as_message, cell_at,
}
use mars_wrapper.Message.{destroy}

-- taskId2TaskCtxMutex. It is not recursive: a second `lock` by its holder, and an `unlock` by
-- anybody else, end the process.
unfoldable pub lock : M (Unit {0})
lock w = elim w.locked [ true ↦ none | false ↦ some (tt, record w { locked = true }) ]

unfoldable pub unlock : M (Unit {0})
unlock w = elim w.locked [ true ↦ some (tt, record w { locked = false }) | false ↦ none ]

-- The value at a key that is there, and null.
abbrev pub found : Option Pointer → Pointer
found none = none
found (some p) = p

unfoldable pub get_task_context : ℕ → M Pointer
get_task_context msg_id w = some (found (w.contexts msg_id), w)

abbrev pub put_context : ℕ → Option Pointer → M (Unit {0})
put_context task_id p w = some (tt, record w { contexts = update w.contexts task_id p })

unfoldable pub store_context : ℕ → Pointer → M (Unit {0})
store_context task_id ctx = do
  lock
  put_context task_id (some ctx)
  _ ← get_task_context task_id
  unlock

-- `delete` of an ImMessage: its destructor, then its memory.
unfoldable pub delete_message : Pointer → M (Unit {0})
delete_message none = pure tt
delete_message (some p) = do m ← read_message (some p); destroy m; λ w. some (tt, put_cell w p none)

unfoldable pub remove_found : ℕ → Pointer → M (Unit {0})
remove_found msg_id none = pure tt
remove_found msg_id (some p) = do
  c ← read_context (some p)
  delete_message c.msg
  lock
  put_context msg_id none
  unlock
  delete_context (some p)

unfoldable pub remove_task_context : ℕ → M (Unit {0})
unfolding remove_found
remove_task_context msg_id = do ctx ← get_task_context msg_id; remove_found msg_id ctx

unfoldable pub reset : M (Unit {0})
reset = call (to_stn Mars.reset)

unfoldable pub redo_tasks : M (Unit {0})
redo_tasks = call (to_stn Mars.redo_tasks)
