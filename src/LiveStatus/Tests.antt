-- ===== src/LiveStatus/Tests.antt =====
-- A stream that is live.
use selfhost_tip_overlay.Prelude.{◌≡◌, ◌↔◌, refl, true}
use selfhost_tip_overlay.Prelude.Int.{pos}
use selfhost_tip_overlay.Payment.Base.{ok}
use selfhost_tip_overlay.Payment.Json.{Json, bool, num, obj, end, field}
use selfhost_tip_overlay.LiveStatus.{authenticate, output_active, fetch_live_status}
use selfhost_tip_overlay.LiveStatus.Closed.{IsLive, fetch_live_status-IsLive}

abbrev hello : Json
hello = obj (field "op" (num (pos 0)) (field "d" (obj end) end))

abbrev identified : Json
identified = obj (field "op" (num (pos 2)) end)

abbrev live : Json
live =
    obj
      (field "d" (obj (field "responseData" (obj (field "outputActive" (bool true) end)) end)) end)

is_live : fetch_live_status "secret" (ok hello) (ok identified) (ok live) ≡ true
unfolding fetch_live_status authenticate output_active
is_live = refl

fetch_live_status-IsLive_example :
    (fetch_live_status "secret" (ok hello) (ok identified) (ok live) ≡ true)
    ↔ IsLive "secret" (ok hello) (ok identified) (ok live)
fetch_live_status-IsLive_example =
    fetch_live_status-IsLive "secret" (ok hello) (ok identified) (ok live)
