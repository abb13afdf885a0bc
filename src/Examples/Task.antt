-- ===== src/Examples/Task.antt =====
-- The lifecycle of a background task.
use eudi_api_management.Base.{suc, ◌+◌, ◌≤◌, ◌≡◌, ◌≢◌, refl, true, false, some, arith}
use eudi_api_management.Webhook.Task.{
  unstarted, exited, closed, Task, new_task, start, begin, pending, stop_task, starts, begins,
  Reach, here, next,
}
use eudi_api_management.Webhook.Task.Stopped.{stop_task-quiet}

-- The task is stopped before its goroutine has begun its first cycle, which then runs.
abbrev launched : Task
launched = start new_task

abbrev closing : Task
closing = record launched { stop = closed; once = true; ticking = false; due = false }

abbrev late : Task
late = begin closing

started : launched.phase ≢ unstarted
unfolding start
started e = ground arith

closing-late : Reach closing late
unfolding start
closing-late = next here (begins closing refl)

stop_task-quiet_example :
    (late.cycles + pending late.phase ≡ closing.cycles + pending closing.phase)
    × (late.cycles ≤ suc closing.cycles)
    × (stop_task late ≡ some late)
    × ((v : Task) × Reach late v × (v.phase ≡ exited))
unfolding start stop_task
stop_task-quiet_example =
    stop_task-quiet (next here (starts new_task refl)) started refl closing-late
