-- ===== src/Tests/Stopping.antt =====
-- Three threads in Wait, of which one tests.
use palmira.Prelude.{◌<◌, ◌≤◌, ◌≡◌, refl, true}
use palmira.Http.Server.Stopping.{created, over, notify_one, Steps, none_yet}
use palmira.Http.Server.Stopping.Lost.{lost, lost-asleep}

lost_three : (lost 2).asleep ≡ 2
unfolding notify_one
lost_three = refl

lost-asleep_example :
    Steps created (lost 2)
    × ((lost 2).finish ≡ true)
    × ((lost 2).stop_pc ≡ over)
    × (0 < (lost 2).asleep)
    × (2 ≤ (lost 2).asleep)
lost-asleep_example = lost-asleep 2 (lost 2) none_yet
