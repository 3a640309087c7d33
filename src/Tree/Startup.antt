-- ===== src/Tree/Startup.antt =====
-- The constructor of `LSMTree` and `load_state_from_disk` of src/lsm_tree.cpp, which reopens the runs
-- that an earlier process left in the directory `data`. `std::stoi` and `std::stoull` belong to the
-- standard library and are written out, the order of the directory and the `std::sort` of the runs are
-- parameters.
pub mod Names
pub mod Scan
use cs.Prelude.{
  ℕ, zero, suc, ◌+◌, ◌-◌, ◌%◌, List, [], ◌∷◌, ◌++◌, Bool, true, false, not, ◌&&◌, ◌||◌, Option,
  none, some, ltb, leb, ◌==◌, if◌then◌else◌, length, drop, take,
}
use cs.Int64.{word, lt64}
use cs.Result
use cs.Result.{Result, ok, err, Error, is_exception, reentered}
use cs.Pair.{KeyValuePair}
use cs.Double.{Doubles}
use cs.SkipList
use cs.Store
use cs.Store.{Store, FileName, same_name, codes}
use cs.Text.{stoi, stoull, starts_with, cut_where}
use cs.Run
use cs.Run.{Run}
use cs.Level
use cs.Level.{Level, strategy_for_level}
use cs.Tree
use cs.Tree.{LsmTree, TreeAction, ◌>>=◌, ◌>>◌, return, modify, add_run_at}
use cs.Tree.Upkeep.{compact_from}

-- A name `run_<level>_<id>.data` that passes the tests is cut into the texts of its two numbers.
unfoldable pub name_parts : FileName → Option (List ℕ × List ℕ)
unfolding starts_with cut_where
name_parts name =
    if starts_with (codes "run_") name
      && ltb 5 (length name)
      && same_name (drop (length name - 5) name) (codes ".data")
    then elim (cut_where (λ c. c == b'_') (drop 4 name)) [
      | none ↦ none
      | some (level, rest) ↦ elim (cut_where (λ c. c == b'.') rest) [
        | none ↦ none
        | some (id, suffix) ↦ some (level, id)
      ]
    ]
    else none

-- `level_runs[level].emplace_back(...)`, where the levels stand in the order of `int`.
unfoldable pub add_entry :
    ℕ → ℕ × FileName → List (ℕ × List (ℕ × FileName)) → List (ℕ × List (ℕ × FileName))
add_entry level entry [] = (level, entry ∷ []) ∷ []
add_entry level entry ((l, es) ∷ rest) =
    let later = (l, es) ∷ add_entry level entry rest in
    if l == level
    then (l, es ++ entry ∷ []) ∷ rest
    else if lt64 level l
    then (level, entry ∷ []) ∷ (l, es) ∷ rest
    else later

abbrev with_entry :
    FileName
    → Option (List ℕ × List ℕ)
    → List (ℕ × List (ℕ × FileName))
    → Result (List (ℕ × List (ℕ × FileName)))
with_entry name none found = ok found
with_entry name (some (level, id)) found =
    Result.◌>>=◌ (stoi level)
      (λ l. Result.◌>>=◌ (stoull id) (λ n. ok (add_entry l (n, codes "data/" ++ name) found)))

-- The loop over the directory. A number that cannot be read ends it with an exception.
unfoldable pub scan_directory :
    List FileName → List (ℕ × List (ℕ × FileName)) → Result (List (ℕ × List (ℕ × FileName)))
unfolding name_parts add_entry
scan_directory [] found = ok found
scan_directory (name ∷ names) found =
    Result.◌>>=◌ (with_entry name (name_parts name) found) (scan_directory names)

-- `while (static_cast<size_t>(level) >= levels.size())`, with the number of levels that are missing.
-- `max_level` stays as it is.
unfoldable pub add_levels : ℕ → List Level → List Level
unfolding strategy_for_level
add_levels zero ls = ls
add_levels (suc missing) ls = add_levels missing (
    ls
    ++ record { level_number = length ls; strategy = strategy_for_level (length ls); runs = [] }
      ∷ [])

-- `catch (const std::exception &e)`: a run that cannot be loaded is left out.
abbrev caught : Result Run × Store → Result (Option Run) × Store
caught (ok r, s) = (ok (some r), s)
caught (err e, s) = if is_exception e then (ok none, s) else (err e, s)

abbrev add_loaded : ℕ → Option Run → TreeAction (Unit {0})
add_loaded level none = return tt
add_loaded level (some r) = add_run_at level r

unfoldable pub load_runs : ℕ → List (ℕ × FileName) → TreeAction (Unit {0})
unfolding add_run_at
load_runs level [] = return tt
load_runs level ((id, filename) ∷ entries) = do
  r ← Tree.on_store (λ s. caught (Run.load filename level id s))
  add_loaded level r
  load_runs level entries

-- The number of runs, of which every compaction leaves fewer.
unfoldable pub number_of_runs : List Level → ℕ
number_of_runs [] = 0
number_of_runs (l ∷ ls) = length l.runs + number_of_runs ls

-- The constructor runs while `LSMAdapter::get_instance` initialises its static instance. A run that a
-- compaction writes (or a count of what it reads) asks for that instance again, which is undefined behaviour.
abbrev while_constructed : LsmTree → Result (Unit {0}) × LsmTree → Result (Unit {0}) × LsmTree
while_constructed t (r, t') =
    if t'.store.write_io_count == t.store.write_io_count
      && t'.store.read_io_count == t.store.read_io_count
    then (r, t')
    else (err reentered, t')

module _ (d : Doubles) (sort : List KeyValuePair → List KeyValuePair)
    (sort_entries : List (ℕ × FileName) → List (ℕ × FileName)) where
  unfoldable pub load_levels : List (ℕ × List (ℕ × FileName)) → TreeAction (Unit {0})
  unfolding add_levels load_runs
  load_levels [] = return tt
  load_levels ((level, entries) ∷ rest) = do
    modify (λ t. record t { levels = add_levels (level + 1 - length t.levels) t.levels })
    load_runs level (sort_entries entries)
    load_levels rest

  -- `directory` has the names of the files in `data`, in the order in which they are listed.
  unfoldable pub load_state_from_disk : List FileName → TreeAction (Unit {0})
  unfolding scan_directory load_levels compact_from number_of_runs
  load_state_from_disk directory = do
    found ← λ t. (scan_directory directory [], t)
    load_levels found
    λ t. while_constructed t (compact_from d sort (length t.levels + number_of_runs t.levels) 1 t)

  -- `LSMTree::LSMTree`: seven levels, and what is on disk.
  unfoldable pub create : ℕ → Bool → Store → List FileName → Result (Unit {0}) × LsmTree
  unfolding load_state_from_disk add_levels
  create buffer_size_bytes compaction_enabled store directory =
      load_state_from_disk directory (record {
        buffer = SkipList.empty;
        levels = add_levels 7 [];
        max_level = 6;
        buffer_size_bytes = buffer_size_bytes;
        compaction_enabled = compaction_enabled;
        read_count = 0;
        write_count = 0;
        store = store;
        locked = false;
      })
