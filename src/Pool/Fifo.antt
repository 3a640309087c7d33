-- ===== src/Pool/Fifo.antt =====
-- No task is lost, run twice or overtaken: true of a new pool and kept by every step.
use mathlib.Core.List.{append_assoc, append-nil}
use cs.Prelude.{
  ℕ, zero, suc, ◌+◌, ◌≡◌, refl, sym, ap, ◌∙◌, List, [], ◌∷◌, ◌++◌, Bool, true, false, ◌==◌, none,
  some, if◌then◌else◌, get_elem?, set, arith, some-injective, Bool-cases, inl, inr,
}
use cs.Pool.Total.{total, total-set}
use cs.Pool.{
  Worker, waiting, running, returned, ThreadPool, all_waiting, create, enqueue, wakes, take_task,
  finish_task, fetch, run, Step, submit, shut, work, Reach, start, later,
}

-- How often a task occurs.
unfoldable pub count : ℕ → List ℕ → ℕ
count t [] = 0
count t (x ∷ xs) = (if x == t then 1 else 0) + count t xs

abbrev pub runs : ℕ → Worker → ℕ
runs t waiting = 0
runs t (running x) = if x == t then 1 else 0
runs t returned = 0

-- How many workers run a task.
abbrev pub held : ℕ → List Worker → ℕ
held t = total (runs t)

count-append : (t : ℕ) (xs ys : List ℕ) → count t (xs ++ ys) ≡ count t xs + count t ys
unfolding count
count-append t [] ys = omega arith
count-append t (x ∷ xs) ys = omega (arith, count-append t xs ys)

held-all_waiting : (t n : ℕ) → held t (all_waiting n) ≡ 0
unfolding total
held-all_waiting t zero = refl
held-all_waiting t (suc n) = omega (arith, held-all_waiting t n)

-- A worker returns from a stopped pool without tasks.
abbrev pub EndedIn : Bool → List ℕ → Worker → Type 0
EndedIn stop tasks waiting = Unit
EndedIn stop tasks (running x) = Unit
EndedIn stop tasks returned = (stop ≡ true) × (tasks ≡ [])

abbrev pub AllEndedIn : Bool → List ℕ → List Worker → Type 0
AllEndedIn stop tasks [] = Unit
AllEndedIn stop tasks (w ∷ ws) = EndedIn stop tasks w × AllEndedIn stop tasks ws

AllEndedIn-all_waiting :
    (stop : Bool) (tasks : List ℕ) (n : ℕ) → AllEndedIn stop tasks (all_waiting n)
AllEndedIn-all_waiting stop tasks zero = tt
AllEndedIn-all_waiting stop tasks (suc n) = (tt, AllEndedIn-all_waiting stop tasks n)

AllEndedIn-set :
    (stop : Bool) (tasks : List ℕ) (ws : List Worker) (i : ℕ) (w : Worker)
    → AllEndedIn stop tasks ws
    → EndedIn stop tasks w
    → AllEndedIn stop tasks (set ws i w)
AllEndedIn-set stop tasks [] i w h e = tt
AllEndedIn-set stop tasks (v ∷ ws) zero w h e = (e, h.1)
AllEndedIn-set stop tasks (v ∷ ws) (suc i) w h e = (h.0, AllEndedIn-set stop tasks ws i w h.1 e)

-- Where no worker of the first state has returned, or the second state is stopped without tasks too.
AllEndedIn-change :
    (stop stop' : Bool) (tasks tasks' : List ℕ) (ws : List Worker)
    → (stop ≡ true → tasks ≡ [] → (stop' ≡ true) × (tasks' ≡ []))
    → AllEndedIn stop tasks ws
    → AllEndedIn stop' tasks' ws
AllEndedIn-change stop stop' tasks tasks' [] f h = tt
AllEndedIn-change stop stop' tasks tasks' (waiting ∷ ws) f h =
    (tt, AllEndedIn-change stop stop' tasks tasks' ws f h.1)
AllEndedIn-change stop stop' tasks tasks' (running x ∷ ws) f h =
    (tt, AllEndedIn-change stop stop' tasks tasks' ws f h.1)
AllEndedIn-change stop stop' tasks tasks' (returned ∷ ws) f h =
    (f h.0.0 h.0.1, AllEndedIn-change stop stop' tasks tasks' ws f h.1)

pub record Inv (p : ThreadPool) : Type 0 where
  -- The tasks are taken in the order in which they were enqueued.
  pub ordered : p.taken ++ p.tasks ≡ p.enqueued
  -- A task that was taken runs, or has run.
  pub ran : (t : ℕ) → count t p.taken ≡ count t p.finished + held t p.workers
  pub ended : AllEndedIn p.stop p.tasks p.workers

create-Inv : (n : ℕ) → Inv (create n)
unfolding create count
create-Inv n = record {
  ordered = refl;
  ran = λ t. omega (arith, held-all_waiting t n);
  ended = AllEndedIn-all_waiting false [] n;
}

enqueue-Inv : (task : ℕ) (p q : ThreadPool) → enqueue task p ≡ some q → Inv p → Inv q
unfolding enqueue
enqueue-Inv task p q e h = elim (Bool-cases p.stop) [
  | inl stopped ↦ let impossible : none ≡ some q = rw stopped at e in cc
  | inr live ↦ rw (sym (some-injective (rw live at e))) (record {
    ordered = sym (append_assoc p.taken p.tasks (task ∷ [])) ∙ ap (λ ts. ts ++ task ∷ []) h.ordered;
    ran = h.ran;
    ended =
        AllEndedIn-change p.stop false p.tasks (p.tasks ++ task ∷ []) p.workers (λ s n. cc) h.ended;
  })
]

take_task-Inv :
    (i : ℕ) (tasks : List ℕ) (p : ThreadPool)
    → p.tasks ≡ tasks
    → get_elem? p.workers i ≡ some waiting
    → wakes p ≡ true
    → Inv p
    → Inv (take_task i tasks p)
unfolding count
take_task-Inv i [] p e w g h = record {
  ordered = h.ordered;
  ran = λ t. omega (arith, h.ran t, total-set (runs t) p.workers i waiting returned w);
  ended = AllEndedIn-set p.stop p.tasks p.workers i returned h.ended (stopped, e);
}
  where
    stopped : p.stop ≡ true
    stopped = elim (Bool-cases p.stop) [
      | inl set_stop ↦ set_stop
      | inr unset ↦ let impossible : false ≡ true = rw (e, unset) at g in cc
    ]
take_task-Inv i (task ∷ rest) p e w g h = record {
  ordered = append_assoc p.taken (task ∷ []) rest ∙ ap (λ ts. p.taken ++ ts) (sym e) ∙ h.ordered;
  ran = λ t. omega (
    arith,
    h.ran t,
    count-append t p.taken (task ∷ []),
    total-set (runs t) p.workers i waiting (running task) w,
  );
  ended =
      AllEndedIn-set p.stop rest p.workers i (running task)
        (AllEndedIn-change p.stop p.stop p.tasks rest p.workers (λ s n. cc) h.ended) tt;
}

finish_task-Inv :
    (i task : ℕ) (p : ThreadPool)
    → get_elem? p.workers i ≡ some (running task)
    → Inv p
    → Inv (finish_task i task p)
unfolding count
finish_task-Inv i task p w h = record {
  ordered = h.ordered;
  ran = λ t. omega (
    arith,
    h.ran t,
    count-append t p.finished (task ∷ []),
    total-set (runs t) p.workers i (running task) waiting w,
  );
  ended = AllEndedIn-set p.stop p.tasks p.workers i waiting h.ended tt;
}

Step-Inv : {p q : ThreadPool} → Step p q → Inv p → Inv q
Step-Inv {p} {q} (submit task e) h = enqueue-Inv task p q e h
Step-Inv {p} shut h = record {
  ordered = h.ordered;
  ran = h.ran;
  ended = AllEndedIn-change p.stop true p.tasks p.tasks p.workers (λ s n. (refl, n)) h.ended;
}
Step-Inv {p} (work (fetch i w g)) h = take_task-Inv i p.tasks p refl w g h
Step-Inv {p} (work (run i task w)) h = finish_task-Inv i task p w h

-- In every state that a pool comes to, by whatever interleaving of its threads: the tasks that workers
-- have taken, followed by those in the queue, are those enqueued, in this order; each task was taken as
-- often as it has run or is running; and where a worker has returned, the pool is stopped and the queue
-- is empty.
pub Reach-Inv : (n : ℕ) (p : ThreadPool) → Reach n p → Inv p
Reach-Inv n p start = create-Inv n
Reach-Inv n p (later r s) = Step-Inv s (Reach-Inv n _ r)

abbrev pub AllReturned : List Worker → Type 0
AllReturned [] = Unit
AllReturned (waiting ∷ ws) = ⊥
AllReturned (running x ∷ ws) = ⊥
AllReturned (returned ∷ ws) = AllReturned ws

held-AllReturned : (t : ℕ) (ws : List Worker) → AllReturned ws → held t ws ≡ 0
unfolding total
held-AllReturned t [] h = refl
held-AllReturned t (waiting ∷ ws) h = absurd h
held-AllReturned t (running x ∷ ws) h = absurd h
held-AllReturned t (returned ∷ ws) h = omega (arith, held-AllReturned t ws h)

ended-AllReturned :
    (stop : Bool) (tasks : List ℕ) (ws : List Worker) (i : ℕ) (w : Worker)
    → get_elem? ws i ≡ some w
    → AllReturned ws
    → AllEndedIn stop tasks ws
    → tasks ≡ []
ended-AllReturned stop tasks [] i w e h x = cc
ended-AllReturned stop tasks (waiting ∷ ws) i w e h x = absurd h
ended-AllReturned stop tasks (running y ∷ ws) i w e h x = absurd h
ended-AllReturned stop tasks (returned ∷ ws) i w e h x = x.0.1

-- When all workers of a pool that has some have returned, as after the joins of the destructor, the tasks
-- were taken in the order in which they were enqueued, all of them, and each ran to its end as often as
-- it was enqueued.
pub Reach-joined :
    (n : ℕ) (p : ThreadPool) (i : ℕ) (w : Worker)
    → Reach n p
    → get_elem? p.workers i ≡ some w
    → AllReturned p.workers
    → (p.taken ≡ p.enqueued) × ((t : ℕ) → count t p.finished ≡ count t p.enqueued)
Reach-joined n p i w r e all =
    let inv = Reach-Inv n p r in
    let taken : p.taken ≡ p.enqueued =
      sym (append-nil p.taken)
      ∙ ap (λ ts. p.taken ++ ts)
          (sym (ended-AllReturned p.stop p.tasks p.workers i w e all inv.ended))
      ∙ inv.ordered in
    (taken, λ t. omega (arith, inv.ran t, held-AllReturned t p.workers all, ap (count t) taken))
