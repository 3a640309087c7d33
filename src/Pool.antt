-- ===== src/Pool.antt =====
-- `ThreadPool` of include/thread_pool.h and src/thread_pool.cpp, as a step relation on the shared
-- state and the position of every worker in its loop. A step is what a thread does while it holds
-- `queue_mutex`, or the run of one task. A task is a number.
pub mod Total
pub mod Fifo
pub mod Drain
use cs.Prelude.{
  ℕ, zero, suc, ◌+◌, ◌≡◌, List, [], ◌∷◌, ◌++◌, Bool, true, false, not, ◌&&◌, ◌||◌, Option, none,
  some, if◌then◌else◌, get_elem?, set, is_empty,
}

-- Where a worker is: before the wait, between the unlocking and the end of its task, or back from
-- `worker_thread`.
pub data Worker : Type 0 where
  waiting : Worker
  running : ℕ → Worker
  returned : Worker

pub record ThreadPool : Type 0 where
  pub workers : List Worker
  pub tasks : List ℕ
  pub stop : Bool
  -- The tasks in the order of `enqueue`, in the order in which workers took them, and those that ran to
  -- their end.
  pub enqueued : List ℕ
  pub taken : List ℕ
  pub finished : List ℕ

abbrev pub all_waiting : ℕ → List Worker
all_waiting zero = []
all_waiting (suc n) = waiting ∷ all_waiting n

-- The constructor.
unfoldable pub create : ℕ → ThreadPool
create num_threads = record {
  workers = all_waiting num_threads;
  tasks = [];
  stop = false;
  enqueued = [];
  taken = [];
  finished = [];
}

-- `enqueue`, which throws on a stopped pool.
unfoldable pub enqueue : ℕ → ThreadPool → Option ThreadPool
enqueue task p =
    if p.stop
    then none
    else some (record p { tasks = p.tasks ++ task ∷ []; enqueued = p.enqueued ++ task ∷ [] })

-- `stop || !tasks.empty()`, for which a worker waits.
abbrev pub wakes : ThreadPool → Bool
wakes p = p.stop || not (is_empty p.tasks)

-- The part of the loop under the lock, behind the wait: the worker returns, or takes the first task.
abbrev pub take_task : ℕ → List ℕ → ThreadPool → ThreadPool
take_task i [] p = record p { workers = set p.workers i returned }
take_task i (task ∷ rest) p = record p {
  workers = set p.workers i (running task);
  tasks = rest;
  taken = p.taken ++ task ∷ [];
}

-- `task();`
abbrev pub finish_task : ℕ → ℕ → ThreadPool → ThreadPool
finish_task i task p = record p {
  workers = set p.workers i waiting;
  finished = p.finished ++ task ∷ [];
}

-- What a worker may do next.
pub data WorkerStep : ThreadPool → ThreadPool → Type 0 where
  fetch :
      {p : ThreadPool} (i : ℕ)
      → get_elem? p.workers i ≡ some waiting
      → wakes p ≡ true
      → WorkerStep p (take_task i p.tasks p)
  run :
      {p : ThreadPool} (i task : ℕ)
      → get_elem? p.workers i ≡ some (running task)
      → WorkerStep p (finish_task i task p)

-- What any thread may do next: the owner of the pool may submit tasks and destroy the pool.
pub data Step : ThreadPool → ThreadPool → Type 0 where
  submit : {p q : ThreadPool} (task : ℕ) → enqueue task p ≡ some q → Step p q
  shut : {p : ThreadPool} → Step p (record p { stop = true })
  work : {p q : ThreadPool} → WorkerStep p q → Step p q

-- The states that a pool of some threads comes to.
pub data Reach (num_threads : ℕ) : ThreadPool → Type 0 where
  start : Reach num_threads (create num_threads)
  later : {p q : ThreadPool} → Reach num_threads p → Step p q → Reach num_threads q
