-- ===== src/Examples.antt =====
-- The theorems at concrete inputs, and the functions run on them: a request "hi" for the listener 7,
-- sent first after the start, and its echo.
pub mod Races
pub mod Requests
pub mod Sessions
pub mod Schedules
pub mod Packets
pub mod Threads
pub mod Echoes
pub mod Http
pub mod Programs
pub mod Objects
use mars_wrapper.Prelude.{ℕ, List, [], ◌∷◌, ◌≡◌, refl, some, arith, length}
use mars_wrapper.Memory.{World, initial}
use mars_wrapper.Message.Frame.{frame}
use mars_wrapper.Plus.Send.{sent}
use mars_wrapper.Plus.Pending.{after-Inv, pending-after}
use mars_wrapper.Platform.{ListBuffer, little_endian}
use mars_wrapper.Proxy.Owned.{Inv, pending, initial-Inv}

abbrev pub hi : List ℕ
hi = b'h' ∷ b'i' ∷ []

abbrev pub echo : ListBuffer
echo = record { content = frame 10000 hi; at = 0 }

abbrev pub waiting_world : World
waiting_world = sent initial hi 2 (some 7)

pub waiting_world-Inv : Inv waiting_world
waiting_world-Inv = after-Inv initial-Inv hi 2 (some 7) (omega arith) (omega arith)

pub hi_waits : pending waiting_world 10000 ≡ some (some 7, hi)
hi_waits = pending-after initial-Inv hi 2 (some 7) (omega arith) (omega arith) 10000
