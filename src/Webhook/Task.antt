-- ===== src/Webhook/Task.antt =====
-- internal/webhook/consumer.go and sweeper.go: `Start` and `Stop` of the two ticker tasks, which have one
-- shape: a goroutine that runs a cycle at once and then on every tick, until the stop channel is closed.
-- A step is one action of the goroutine, of the ticker or of a caller. `go` only makes the goroutine,
-- and the receipt of a tick is a step before the cycle that it leads to. The framework starts a task once.
-- A stopped ticker delivers no further tick, also none that was due.
pub mod Stopped
use eudi_api_management.Base.{ℕ, suc, ◌≡◌, Bool, true, false, Option, none, some, if◌then◌else◌}

-- The goroutine of Start: made by `go`, in runOnce, at the select, or past the receipt of a tick.
pub data Phase : Type 0 where
  unstarted spawned running waiting ticked exited : Phase

-- how many cycles are still to begin before the next select
abbrev pub pending : Phase → ℕ
pending unstarted = 0
pending spawned = 1
pending running = 0
pending waiting = 0
pending ticked = 1
pending exited = 0

-- stopCh
pub data Channel : Type 0 where
  absent opened closed : Channel

pub record Task : Type 0 where
  pub phase : Phase
  pub stop : Channel
  -- whether stopOnce has run
  pub once : Bool
  -- whether the ticker runs, and whether a tick waits to be received
  pub ticking : Bool
  pub due : Bool
  -- how many cycles have begun
  pub cycles : ℕ

-- NewConsumer, NewSweeper
abbrev pub new_task : Task
new_task = record {
  phase = unstarted;
  stop = absent;
  once = false;
  ticking = false;
  due = false;
  cycles = 0;
}

-- Start
unfoldable pub start : Task → Task
start s = record s { phase = spawned; stop = opened; ticking = true; due = false }

-- the call of runOnce
unfoldable pub begin : Task → Task
begin s = record s { phase = running; cycles = suc s.cycles }

-- close(stopCh), where `none` is the panic of a channel that is nil or closed already
abbrev close_channel : Channel → Option Channel
close_channel absent = none
close_channel opened = some closed
close_channel closed = none

abbrev stopped_with : Task → Option Channel → Option Task
stopped_with s none = none
stopped_with s (some c) = some (record s { stop = c; once = true; ticking = false; due = false })

-- Stop; `none` is a panic
unfoldable pub stop_task : Task → Option Task
stop_task s = if s.once then some s else stopped_with s (close_channel s.stop)

pub data Step : Task → Task → Type 0 where
  starts : (s : Task) → s.phase ≡ unstarted → Step s (start s)
  ticks : (s : Task) → s.ticking ≡ true → Step s (record s { due = true })
  -- runOnce is entered: the first one, and the one of a tick
  begins : (s : Task) → s.phase ≡ spawned → Step s (begin s)
  resumes : (s : Task) → s.phase ≡ ticked → Step s (begin s)
  finishes : (s : Task) → s.phase ≡ running → Step s (record s { phase = waiting })
  -- the two cases of the select
  wakes :
      (s : Task)
      → s.phase ≡ waiting
      → s.due ≡ true
      → Step s (record s { phase = ticked; due = false })
  exits : (s : Task) → s.phase ≡ waiting → s.stop ≡ closed → Step s (record s { phase = exited })
  stops : (s t : Task) → stop_task s ≡ some t → Step s t

pub data Reach (s : Task) : Task → Type 0 where
  here : Reach s s
  next : {t u : Task} → Reach s t → Step t u → Reach s u
