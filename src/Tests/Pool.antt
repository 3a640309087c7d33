-- ===== src/Tests/Pool.antt =====
-- Examples on the thread pool: one worker, one task, and the destruction of the pool.
use cs.Prelude.{ℕ, ◌≡◌, refl, [], ◌∷◌, true, false}
use cs.Pool.{
  ThreadPool, waiting, returned, running, create, enqueue, WorkerStep, fetch, run, Step, submit,
  shut, work, Reach, start, later,
}
use cs.Pool.Fifo.{Reach-joined, count}

abbrev with_task : ThreadPool
with_task = record {
  workers = waiting ∷ [];
  tasks = 7 ∷ [];
  stop = false;
  enqueued = 7 ∷ [];
  taken = [];
  finished = [];
}

abbrev stopped : ThreadPool
stopped = record with_task { stop = true }

abbrev busy : ThreadPool
busy = record stopped { workers = running 7 ∷ []; tasks = []; taken = 7 ∷ [] }

abbrev freed : ThreadPool
freed = record busy { workers = waiting ∷ []; finished = 7 ∷ [] }

abbrev over : ThreadPool
over = record freed { workers = returned ∷ [] }

to_task : Step (create 1) with_task
unfolding create enqueue
to_task = submit 7 refl

to_busy : WorkerStep stopped busy
to_busy = fetch 0 refl refl

to_freed : WorkerStep busy freed
to_freed = run 0 7 refl

to_over : WorkerStep freed over
to_over = fetch 0 refl refl

over-Reach : Reach 1 over
over-Reach =
    later (later (later (later (later start to_task) shut) (work to_busy)) (work to_freed))
      (work to_over)

Reach-joined_example :
    (over.taken ≡ over.enqueued) × ((t : ℕ) → count t over.finished ≡ count t over.enqueued)
Reach-joined_example = Reach-joined 1 over 0 returned over-Reach refl tt
