-- ===== src/Tests/Claiming.antt =====
-- The order of the in-memory queue of level2_service/queue.py at concrete inputs.
use tonghuashun.Base.{refl}
use tonghuashun.Queue.{active_lease}
use tonghuashun.Queue.Claim.{next_runnable}
use tonghuashun.Queue.Claim.Order.{TakesFirst, next_runnable-TakesFirst}
use tonghuashun.Tests.{at, two_tasks}

next_runnable-TakesFirst_example :
    TakesFirst (at 9) (active_lease (at 9) two_tasks).1 (next_runnable (at 9) two_tasks)
unfolding active_lease
next_runnable-TakesFirst_example = next_runnable-TakesFirst (at 9) two_tasks refl
