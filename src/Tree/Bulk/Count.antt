-- ===== src/Tree/Bulk/Count.antt =====
-- A bulk load loses no pair between the levels.
use cs.Prelude.{ℕ, ◌+◌, ◌≡◌}
use cs.Result.{Result, ok, err}
use cs.Store
use cs.Store.{Store}
use cs.Run
use cs.Run.{Run}
use cs.Level
use cs.Level.{Level}
use cs.Tree.{LsmTree}
use cs.Tree.Access.{level_pairs}

-- A run with so many pairs, if there is one.
SizeIs : ℕ → Result Run × Store → Type 0
SizeIs n (ok r, s) = Run.size r ≡ n
SizeIs n (err e, s) = Unit

-- The pairs in the levels, with those that a result still has, are so many.
Counts {ℓ} : {A : Type ℓ} → (A → ℕ) → ℕ → Result A × LsmTree → Type 0
Counts f n (ok a, t) = level_pairs t.levels + f a ≡ n
Counts f n (err e, t) = Unit

no_more : Unit {0} → ℕ
no_more done = 0
