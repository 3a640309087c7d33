-- ===== src/Level.antt =====
-- `Level` of include/lsm_tree.h and src/lsm_tree.cpp: the runs of a level, the oldest first.
use cs.Prelude.{ℕ, List, [], ◌∷◌, ◌++◌, Bool, ltb, leb, ◌==◌, ◌&&◌, if◌then◌else◌, length}
use cs.Store.{Action, ◌>>◌, return}
use cs.Run
use cs.Run.{Run}

pub data CompactionStrategy : Type 0 where
  tiering lazy_leveling leveling : CompactionStrategy

pub record Level : Type 0 where
  pub level_number : ℕ
  pub strategy : CompactionStrategy
  pub runs : List Run

abbrev pub tiering_threshold : ℕ
tiering_threshold = 4

abbrev pub lazy_leveling_threshold : ℕ
lazy_leveling_threshold = 3

unfoldable pub add_run : Level → Run → Level
add_run l r = record l { runs = l.runs ++ r ∷ [] }

abbrev pub is_due : CompactionStrategy → ℕ → Bool
is_due tiering n = leb tiering_threshold n
is_due lazy_leveling n = leb lazy_leveling_threshold n
is_due leveling n = ltb 1 n

unfoldable pub needs_compaction : Level → Bool
needs_compaction l = is_due l.strategy (length l.runs)

unfoldable pub run_count : Level → ℕ
run_count l = length l.runs

unfoldable pub delete_all : List Run → Action (Unit {0})
delete_all [] = return tt
delete_all (r ∷ rs) = do Run.delete_files_from_disk r; delete_all rs

unfoldable pub clear_runs : Level → Action Level
unfolding delete_all
clear_runs l = do delete_all l.runs; return (record l { runs = [] })

-- `get_strategy_for_level`, which the constructor of the tree repeats.
unfoldable pub strategy_for_level : ℕ → CompactionStrategy
strategy_for_level level =
    if level == 1 then tiering else if leb 2 level && leb level 4 then lazy_leveling else leveling
