-- ===== src/Pool/Drain.antt =====
-- A stopped pool comes to rest: its workers have a bounded number of steps left, and are not stuck
-- before all of them have returned.
use cs.Prelude.{ℕ, ◌+◌, ◌*◌, length}
use cs.Pool.Total.{total}
use cs.Pool.{Worker, waiting, running, returned, ThreadPool, WorkerStep}

abbrev pub steps_left : Worker → ℕ
steps_left waiting = 1
steps_left (running x) = 2
steps_left returned = 0

-- Each task is two steps, and each worker returns in one more.
abbrev pub remaining : ThreadPool → ℕ
remaining p = 2 * length p.tasks + total steps_left p.workers

-- So many steps of workers, one after the other.
pub data WorkerSteps : ℕ → ThreadPool → ThreadPool → Type 0 where
  rest : {p : ThreadPool} → WorkerSteps 0 p p
  more : {n : ℕ} {p q r : ThreadPool} → WorkerSteps n p q → WorkerStep q r → WorkerSteps (n + 1) p r
