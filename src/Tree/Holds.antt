-- ===== src/Tree/Holds.antt =====
-- What the tree holds: the contents of the buffer, and the pairs of each run.
use cs.Prelude.{ℕ, List, [], ◌∷◌, Option, none, some}
use cs.Pair.{KeyValuePair, lookup}
use cs.SkipList.Contents.{IsValid}
use cs.Store.{Store}
use cs.Run.{Run}
use cs.Run.Holds.{Holds, SameFiles, Holds-SameFiles}
use cs.Level.{Level}
use cs.Tree.{LsmTree}

-- The pairs of the runs of a level, and of the levels.
abbrev pub RunsHold : Store → List Run → List (List KeyValuePair) → Type 0
RunsHold s [] [] = Unit
RunsHold s [] (ps ∷ pss) = ⊥
RunsHold s (r ∷ rs) [] = ⊥
RunsHold s (r ∷ rs) (ps ∷ pss) = Holds s r ps × RunsHold s rs pss

abbrev pub LevelsHold : Store → List Level → List (List (List KeyValuePair)) → Type 0
LevelsHold s [] [] = Unit
LevelsHold s [] (pss ∷ psss) = ⊥
LevelsHold s (l ∷ ls) [] = ⊥
LevelsHold s (l ∷ ls) (pss ∷ psss) = RunsHold s l.runs pss × LevelsHold s ls psss

pub record TreeHolds (t : LsmTree) (psss : List (List (List KeyValuePair))) : Type 0 where
  pub buffered : IsValid t.buffer
  pub on_disk : LevelsHold t.store t.levels psss

-- The first answer that there is.
abbrev pub first_some : Option ℕ → Option ℕ → Option ℕ
first_some (some v) o = some v
first_some none o = o

-- The newest value of a key: that of the last run of a level that has it, in the first such level.
unfoldable pub newest_of_runs : ℕ → List (List KeyValuePair) → Option ℕ
newest_of_runs k [] = none
newest_of_runs k (ps ∷ pss) = first_some (newest_of_runs k pss) (lookup k ps)

unfoldable pub newest_of_levels : ℕ → List (List (List KeyValuePair)) → Option ℕ
newest_of_levels k [] = none
newest_of_levels k (pss ∷ psss) = first_some (newest_of_runs k pss) (newest_of_levels k psss)

-- The map that the tree stands for: the buffer first, then the levels.
unfoldable pub newest : ℕ → List KeyValuePair → List (List (List KeyValuePair)) → Option ℕ
unfolding newest_of_runs newest_of_levels
newest k buffered psss = first_some (lookup k buffered) (newest_of_levels k psss)

pub RunsHold-SameFiles :
    (s s' : Store) (rs : List Run) (pss : List (List KeyValuePair))
    → SameFiles s s'
    → RunsHold s rs pss
    → RunsHold s' rs pss
RunsHold-SameFiles s s' [] [] x h = tt
RunsHold-SameFiles s s' [] (ps ∷ pss) x h = h
RunsHold-SameFiles s s' (r ∷ rs) [] x h = h
RunsHold-SameFiles s s' (r ∷ rs) (ps ∷ pss) x h =
    (Holds-SameFiles x h.0, RunsHold-SameFiles s s' rs pss x h.1)

pub LevelsHold-SameFiles :
    (s s' : Store) (ls : List Level) (psss : List (List (List KeyValuePair)))
    → SameFiles s s'
    → LevelsHold s ls psss
    → LevelsHold s' ls psss
LevelsHold-SameFiles s s' [] [] x h = tt
LevelsHold-SameFiles s s' [] (pss ∷ psss) x h = h
LevelsHold-SameFiles s s' (l ∷ ls) [] x h = h
LevelsHold-SameFiles s s' (l ∷ ls) (pss ∷ psss) x h =
    (RunsHold-SameFiles s s' l.runs pss x h.0, LevelsHold-SameFiles s s' ls psss x h.1)
