-- ===== src/Webhook/Task/Stopped.antt =====
-- A task that is stopped begins at most the one cycle that it was about to begin.
use eudi_api_management.Base.{
  ℕ, suc, ◌+◌, ◌≤◌, ◌≡◌, ◌≢◌, refl, true, false, some, inl, inr, arith, Bool-cases,
}
use eudi_api_management.Webhook.Task.{
  Phase, unstarted, spawned, running, waiting, ticked, exited, pending, Channel, absent, opened,
  closed, Task, new_task, start, begin, close_channel, stopped_with, stop_task, Step, starts, ticks,
  begins, resumes, finishes, wakes, exits, stops, Reach, here, next,
}

-- How the fields of a task hang together.
record Inv (s : Task) : Type 0 where
  fresh : s.phase ≡ unstarted → s.stop ≡ absent
  begun : s.stop ≡ absent → s.phase ≡ unstarted
  unstopped : s.once ≡ false → s.stop ≢ closed
  done : s.once ≡ true → s.stop ≡ closed
  quiet : s.stop ≡ closed → (s.ticking ≡ false) × (s.due ≡ false)

new_task-Inv : Inv new_task
new_task-Inv = ground arith

Step-Inv : {s t : Task} → Step s t → Inv s → Inv t
unfolding start begin stop_task
Step-Inv (starts s e) i = ground arith
Step-Inv (ticks s e) i = ground arith
Step-Inv (begins s e) i = ground arith
Step-Inv (resumes s e) i = ground arith
Step-Inv (finishes s e) i = ground arith
Step-Inv (wakes s e d) i = ground arith
Step-Inv (exits s e d) i = ground arith
Step-Inv (stops s t e) i = ground arith

Reach-Inv : {s t : Task} → Reach s t → Inv s → Inv t
Reach-Inv here i = i
Reach-Inv (next r st) i = Step-Inv st (Reach-Inv r i)

-- A task whose Stop has run, with c cycles that have begun or are about to begin.
record IsStopped (c : ℕ) (s : Task) : Type 0 where
  has_started : s.phase ≢ unstarted
  once : s.once ≡ true
  shut : s.stop ≡ closed
  unticked : s.ticking ≡ false
  undue : s.due ≡ false
  count : s.cycles + pending s.phase ≡ c

stop_task-IsStopped :
    {s t : Task}
    → Inv s
    → s.phase ≢ unstarted
    → stop_task s ≡ some t
    → IsStopped (t.cycles + pending t.phase) t
unfolding stop_task
stop_task-IsStopped i p e = ground arith

stop_task_again : {c : ℕ} {s : Task} → IsStopped c s → stop_task s ≡ some s
unfolding stop_task
stop_task_again i = ground arith

Step-IsStopped : {c : ℕ} {s t : Task} → Step s t → IsStopped c s → IsStopped c t
unfolding start begin stop_task
Step-IsStopped (starts s e) i = ground arith
Step-IsStopped (ticks s e) i = ground arith
Step-IsStopped (begins s e) i = ground arith
Step-IsStopped (resumes s e) i = ground arith
Step-IsStopped (finishes s e) i = ground arith
Step-IsStopped (wakes s e d) i = ground arith
Step-IsStopped (exits s e d) i = ground arith
Step-IsStopped (stops s t e) i = ground arith

Reach-IsStopped : {c : ℕ} {s t : Task} → Reach s t → IsStopped c s → IsStopped c t
Reach-IsStopped here i = i
Reach-IsStopped (next r st) i = Step-IsStopped st (Reach-IsStopped r i)

Reach-before : {s t u : Task} → Step s t → Reach t u → Reach s u
Reach-before st here = next here st
Reach-before st (next r st') = next (Reach-before st r) st'

pending_le : (p : Phase) → pending p ≤ 1
pending_le unstarted = omega arith
pending_le spawned = omega arith
pending_le running = omega arith
pending_le waiting = omega arith
pending_le ticked = omega arith
pending_le exited = omega arith

at_most_one : (p q : Phase) (m n : ℕ) → n + pending q ≡ m + pending p → n ≤ suc m
at_most_one p q m n h = let low = pending_le p in omega arith

-- The goroutine ends: a cycle that is about to begin or runs finishes first.
abbrev ReachesExit : Task → Type 0
ReachesExit s = (v : Task) × Reach s v × (v.phase ≡ exited)

ends_after : {s t : Task} → Step s t → ReachesExit t → ReachesExit s
ends_after st (v, r, e) = (v, Reach-before st r, e)

ends_waiting : (s : Task) → s.phase ≡ waiting → s.stop ≡ closed → ReachesExit s
ends_waiting s e shut = (record s { phase = exited }, next here (exits s e shut), refl)

ends_running : (s : Task) → s.phase ≡ running → s.stop ≡ closed → ReachesExit s
ends_running s e shut =
    ends_after (finishes s e) (ends_waiting (record s { phase = waiting }) refl shut)

ends_from : {c : ℕ} (p : Phase) (s : Task) → s.phase ≡ p → IsStopped c s → ReachesExit s
unfolding begin
ends_from unstarted s e i = absurd (i.has_started e)
ends_from spawned s e i = ends_after (begins s e) (ends_running (begin s) refl i.shut)
ends_from running s e i = ends_running s e i.shut
ends_from waiting s e i = ends_waiting s e i.shut
ends_from ticked s e i = ends_after (resumes s e) (ends_running (begin s) refl i.shut)
ends_from exited s e i = (s, here, e)

-- After Stop of a started task has returned, the task begins at most one further cycle, whatever it,
-- its ticker and its callers do: the first one where its goroutine has not begun it, or the one of a
-- tick that it has received. A further Stop does nothing and does not panic, and the goroutine can
-- always reach its end, after the cycle it is in or is about to begin.
pub stop_task-quiet :
    {s t u : Task}
    → Reach new_task s
    → s.phase ≢ unstarted
    → stop_task s ≡ some t
    → Reach t u
    → (u.cycles + pending u.phase ≡ t.cycles + pending t.phase)
      × (u.cycles ≤ suc t.cycles)
      × (stop_task u ≡ some u)
      × ((v : Task) × Reach u v × (v.phase ≡ exited))
stop_task-quiet {t = t} {u} r launched stopped more =
    let i =
      Reach-IsStopped more (stop_task-IsStopped (Reach-Inv r new_task-Inv) launched stopped) in
    (
      i.count,
      at_most_one t.phase u.phase t.cycles u.cycles i.count,
      stop_task_again i,
      ends_from u.phase u refl i,
    )

closes :
    (s : Task) (c : Channel)
    → s.stop ≡ c
    → c ≢ absent
    → c ≢ closed
    → (t : Task) × (stopped_with s (close_channel c) ≡ some t)
closes s absent e present unshut = absurd (present refl)
closes s opened e present unshut = (_, refl)
closes s closed e present unshut = absurd (unshut refl)

-- Stop of a task that has started does not panic.
stop_task-total :
    {s : Task} → Reach new_task s → s.phase ≢ unstarted → (t : Task) × (stop_task s ≡ some t)
unfolding stop_task
stop_task-total {s} r launched =
    let i = Reach-Inv r new_task-Inv in
    elim (Bool-cases s.once) [
      | inl stopped ↦ (s, rw stopped refl)
      | inr fresh ↦
          rw fresh (closes s s.stop refl (λ gone. launched (i.begun gone)) (i.unstopped fresh))
    ]
