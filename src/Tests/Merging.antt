-- ===== src/Tests/Merging.antt =====
-- Examples on compactions, in a store in which every file holds the same two pairs.
use cs.Prelude.{
  ℕ, ◌+◌, ◌*◌, ◌<◌, ◌≡◌, inl, refl, List, [], ◌∷◌, some, true, false, ◌==◌, if◌then◌else◌, arith,
  length, ltb,
}
use cs.Int64.{rank}
use cs.Double.{Doubles, zero_double, one_double, four_double, minus_zero}
use cs.Result.{ok}
use cs.Pair.{KeyValuePair, encode}
use cs.Bloom.{optimal_bits}
use cs.SkipList
use cs.Compaction.{deduplicate}
use cs.Compaction.Sorting.{insert_pair, insertion_sort, insertion_sort-IsSort}
use cs.Store.{Store}
use cs.Run.{Run, data_filename, pair_size}
use cs.Run.Holds.{Holds}
use cs.Level.{Level, tiering, lazy_leveling, leveling}
use cs.Tree.{LsmTree, calculate_fpr_for_level, get_target_level_for_size}
use cs.Tree.Compact.{perform_compaction}
use cs.Tree.Holds.{RunsHold, TreeHolds, newest, newest_of_runs, newest_of_levels}
use cs.Tree.Names.{LevelsNamed}
use cs.Tree.Merge.{merged}
use cs.Tree.Preserved.{Merges}
use cs.Tree.Tiering.{perform_compaction-tiering}
use cs.Tree.Leveling.{perform_compaction-in_place}
use cs.Tree.Sinks.{perform_compaction-sink}
use cs.Tests.{two, two-Fits, two-Ascends, coarse, stored, run, run-Holds}
use cs.Tests.Buffer.{filled, filled-IsValid}

abbrev pub copies : Store
copies = record stored { disk = λ _. some (encode two) }

abbrev pub copy : ℕ → ℕ → Run
copy level run_id = record run {
  level = level;
  run_id = run_id;
  filename = data_filename level run_id;
}

pub copy-Holds : (level run_id : ℕ) → Holds copies (copy level run_id) two
copy-Holds level run_id = record {
  stored = refl;
  fits = two-Fits;
  ascending = two-Ascends;
  counted = refl;
  filtered = run-Holds.filtered;
  indexed = run-Holds.indexed;
}

abbrev pub top : Level
top = record { level_number = 0; strategy = tiering; runs = [] }

abbrev three_runs : Level
three_runs = record {
  level_number = 1;
  strategy = tiering;
  runs = copy 1 0 ∷ copy 1 1 ∷ copy 1 2 ∷ [];
}

abbrev four_runs : Level
four_runs = record three_runs { runs = copy 1 0 ∷ copy 1 1 ∷ copy 1 2 ∷ copy 1 3 ∷ [] }

abbrev pub lazy : Level
lazy = record { level_number = 2; strategy = lazy_leveling; runs = copy 2 0 ∷ copy 2 1 ∷ [] }

abbrev pub third : Level
third = record { level_number = 3; strategy = leveling; runs = [] }

abbrev pub fourth : Level
fourth = record { level_number = 4; strategy = leveling; runs = [] }

abbrev pub base : LsmTree
base = record {
  buffer = filled;
  levels = [];
  max_level = 4;
  buffer_size_bytes = 4096;
  compaction_enabled = true;
  read_count = 0;
  write_count = 0;
  store = copies;
  locked = false;
}

abbrev pub sort : List KeyValuePair → List KeyValuePair
sort = insertion_sort true

abbrev twice : List (List KeyValuePair)
twice = two ∷ two ∷ []

abbrev fourfold : List (List KeyValuePair)
fourfold = two ∷ two ∷ two ∷ two ∷ []

merged-fourfold : merged sort fourfold ≡ two
unfolding merged insertion_sort insert_pair deduplicate rank
merged-fourfold = refl

merged-twice : merged sort twice ≡ two
unfolding merged insertion_sort insert_pair deduplicate rank
merged-twice = refl

some_bits :
    (0 < optimal_bits coarse 2 (calculate_fpr_for_level coarse 4 1))
    × (0 < optimal_bits coarse 2 (calculate_fpr_for_level coarse 4 2))
unfolding optimal_bits calculate_fpr_for_level
some_bits = omega arith

four-Hold : RunsHold copies four_runs.runs fourfold
four-Hold = (copy-Holds 1 0, (copy-Holds 1 1, (copy-Holds 1 2, (copy-Holds 1 3, tt))))

perform_compaction-tiering_example :
    (t : LsmTree) × (perform_compaction coarse sort 4 1
        (record base { levels = top ∷ four_runs ∷ third ∷ fourth ∷ [] })
      ≡ (ok tt, t))
    × TreeHolds t ([] ∷ [] ∷ (merged sort fourfold ∷ []) ∷ [] ∷ [])
    × LevelsNamed 0 t.levels
    × (t.buffer ≡ filled)
    × ((k : ℕ)
        → Merges k (SkipList.get_all_sorted filled) ([] ∷ []) fourfold ([] ∷ [] ∷ []) (
            newest k
              (SkipList.get_all_sorted t.buffer)
              ([] ∷ [] ∷ (merged sort fourfold ∷ []) ∷ [] ∷ [])))
perform_compaction-tiering_example =
    perform_compaction-tiering coarse sort 3 base (top ∷ []) four_runs third (fourth ∷ []) ([] ∷ [])
      fourfold [] ([] ∷ []) refl (insertion_sort-IsSort true) refl refl refl
      (record { buffered = filled-IsValid; on_disk = (tt, (four-Hold, (tt, (tt, tt)))) })
      (tt, ((refl, (refl, (refl, (refl, tt)))), (tt, (tt, tt)))) (rw merged-fourfold)
      (rw merged-fourfold some_bits.1)
      (record { data_file = refl; bloom_file = refl; fence_file = refl }) refl refl

abbrev lazy_full : Level
lazy_full = record lazy { runs = copy 2 0 ∷ copy 2 1 ∷ copy 2 2 ∷ [] }

abbrev threefold : List (List KeyValuePair)
threefold = two ∷ two ∷ two ∷ []

lazy-Hold : RunsHold copies lazy_full.runs threefold
lazy-Hold = (copy-Holds 2 0, (copy-Holds 2 1, (copy-Holds 2 2, tt)))

merged-threefold : merged sort threefold ≡ two
unfolding merged insertion_sort insert_pair deduplicate rank
merged-threefold = refl

two_small :
    (ls : List Level)
    → ltb 2
        (get_target_level_for_size coarse (record base { levels = ls }) (length two * pair_size))
      ≡ false
unfolding get_target_level_for_size
two_small ls = refl

perform_compaction-in_place_example :
    (t : LsmTree) × (perform_compaction coarse sort 4 2
        (record base { levels = top ∷ top ∷ lazy_full ∷ third ∷ fourth ∷ [] })
      ≡ (ok tt, t))
    × TreeHolds t ([] ∷ [] ∷ (merged sort threefold ∷ []) ∷ [] ∷ [] ∷ [])
    × LevelsNamed 0 t.levels
    × (t.buffer ≡ filled)
    × (t.max_level ≡ 4)
    × ((k : ℕ)
        → Merges k (SkipList.get_all_sorted filled) ([] ∷ [] ∷ []) threefold ([] ∷ [] ∷ []) (
            newest k
              (SkipList.get_all_sorted t.buffer)
              ([] ∷ [] ∷ (merged sort threefold ∷ []) ∷ [] ∷ [] ∷ [])))
perform_compaction-in_place_example =
    perform_compaction-in_place coarse sort 3 base (top ∷ top ∷ []) lazy_full (third ∷ fourth ∷ [])
      ([] ∷ [] ∷ []) threefold ([] ∷ [] ∷ []) refl (insertion_sort-IsSort true) refl (inl refl)
      (record { buffered = filled-IsValid; on_disk = (tt, (tt, (lazy-Hold, (tt, (tt, tt))))) })
      (tt, (tt, ((refl, (refl, (refl, tt))), (tt, (tt, tt))))) (rw merged-threefold)
      (rw merged-threefold (two_small (top ∷ top ∷ lazy_full ∷ third ∷ fourth ∷ [])))
      (rw merged-threefold some_bits.1)
      (record { data_file = refl; bloom_file = refl; fence_file = refl }) refl

-- The capacity of a level grows by one, and a level of 4100 takes everything.
abbrev growing : Doubles
growing = record coarse {
  mul = λ a b.
      if b == zero_double then minus_zero else if b == four_double then a + 1 else one_double;
  lt = λ a b. ltb a 4100;
}

abbrev tall : LsmTree
tall = record base { max_level = 5 }

abbrev fifth : Level
fifth = record { level_number = 5; strategy = leveling; runs = [] }

sink_bits : 0 < optimal_bits growing 2 (calculate_fpr_for_level growing 5 4)
unfolding optimal_bits calculate_fpr_for_level
sink_bits = omega arith

two_sinks :
    (ls : List Level)
    → get_target_level_for_size growing (record tall { levels = ls }) (length two * pair_size) ≡ 4
unfolding get_target_level_for_size
two_sinks ls = refl

perform_compaction-sink_example :
    (t : LsmTree) × (perform_compaction growing sort 4 2
        (record tall { levels = top ∷ top ∷ lazy_full ∷ third ∷ fourth ∷ fifth ∷ [] })
      ≡ (ok tt, t))
    × TreeHolds t ([] ∷ [] ∷ [] ∷ [] ∷ (merged sort threefold ∷ []) ∷ [] ∷ [])
    × LevelsNamed 0 t.levels
    × (t.buffer ≡ filled)
    × ((k : ℕ)
        → Merges k (SkipList.get_all_sorted filled) ([] ∷ [] ∷ []) threefold ([] ∷ [] ∷ [] ∷ []) (
            newest k
              (SkipList.get_all_sorted t.buffer)
              ([] ∷ [] ∷ [] ∷ [] ∷ (merged sort threefold ∷ []) ∷ [] ∷ [])))
unfolding newest_of_levels newest_of_runs
perform_compaction-sink_example =
    perform_compaction-sink growing sort 3 tall (top ∷ top ∷ []) lazy_full (third ∷ []) fourth
      (fifth ∷ []) ([] ∷ [] ∷ []) threefold ([] ∷ []) [] ([] ∷ []) refl refl
      (insertion_sort-IsSort true) refl (inl refl)
      (record {
        buffered = filled-IsValid;
        on_disk = (tt, (tt, (lazy-Hold, (tt, (tt, (tt, tt))))));
      })
      (tt, (tt, ((refl, (refl, (refl, tt))), (tt, (tt, (tt, tt)))))) (λ k. refl)
      (rw merged-threefold)
      (rw merged-threefold (two_sinks (top ∷ top ∷ lazy_full ∷ third ∷ fourth ∷ fifth ∷ [])))
      (rw merged-threefold sink_bits)
      (record { data_file = refl; bloom_file = refl; fence_file = refl }) refl refl
