-- ===== src/Callback/Status.antt =====
-- `ReportConnectStatus`: the listener for the state of the connection.
use mars_wrapper.Prelude.{◌≡◌, refl, List, [], ◌∷◌, ◌++◌, none, some}
use mars_wrapper.Prelude.Int.{ℤ}
use mars_wrapper.Memory.{World, Pointer, Call, on_channel_status}
use mars_wrapper.Callback.{report_connect_status, get_channel_listener, tell_status}

-- What the listener hears, if there is one.
abbrev pub status_calls : Pointer → ℤ → List Call
status_calls none status = []
status_calls (some listener) status = on_channel_status listener status ∷ []

tell_status_lem :
    (w : World) (listener : Pointer) (status : ℤ)
    → tell_status listener status w
      ≡ some (tt, record w { log = status_calls listener status ++ w.log })
unfolding tell_status
tell_status_lem w none status = refl
tell_status_lem w (some listener) status = refl

pub report_connect_status_lem :
    (w : World) (status longlink_status : ℤ)
    → report_connect_status status longlink_status w
      ≡ some (tt, record w { log = status_calls w.channel_listener longlink_status ++ w.log })
unfolding report_connect_status get_channel_listener
report_connect_status_lem w status longlink_status =
    tell_status_lem w w.channel_listener longlink_status
