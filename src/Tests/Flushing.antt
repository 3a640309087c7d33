-- ===== src/Tests/Flushing.antt =====
-- Examples on flushes that make level 1 full.
use cs.Prelude.{
  ℕ, ◌<◌, ◌≡◌, inl, inr, refl, List, [], ◌∷◌, ◌++◌, some, true, false, ◌==◌, if◌then◌else◌, arith,
  length, is_empty,
}
use cs.Int64.{rank}
use cs.Result.{ok}
use cs.Pair.{KeyValuePair}
use cs.Bloom.{optimal_bits}
use cs.SkipList
use cs.SkipList.{SkipList, insert, insert_at, find_predecessors, descend, walk}
use cs.Compaction.{deduplicate}
use cs.Compaction.Sorting.{insert_pair, insertion_sort, insertion_sort-IsSort}
use cs.Level.{Level, tiering}
use cs.Tree.{LsmTree, calculate_fpr_for_level, get_target_level_for_size}
use cs.Tree.Access.{put}
use cs.Tree.Compact.{flush_buffer}
use cs.Tree.Holds.{TreeHolds, newest}
use cs.Tree.Names.{LevelsNamed}
use cs.Tree.Merge.{merged}
use cs.Tree.Preserved.{Preserved, Varies}
use cs.Tree.FlushKeeps.{MergesInPlace, flush_buffer-Preserved}
use cs.Tree.FullMerges.{put-Preserved}
use cs.Tests.{two, coarse}
use cs.Tests.Buffer.{filled, filled-IsValid}
use cs.Tests.Trees.{filled-Fits, over, over_full, over-Fits}
use cs.Tests.Merging.{copy, copy-Holds, top, lazy, third, fourth, base, sort}

abbrev three_runs : Level
three_runs = record {
  level_number = 1;
  strategy = tiering;
  runs = copy 1 0 ∷ copy 1 1 ∷ copy 1 2 ∷ [];
}

abbrev crowded : LsmTree
crowded = record base { levels = top ∷ three_runs ∷ lazy ∷ third ∷ fourth ∷ [] }

abbrev threefold : List (List KeyValuePair)
threefold = two ∷ two ∷ two ∷ []

abbrev twice : List (List KeyValuePair)
twice = two ∷ two ∷ []

crowded-TreeHolds : TreeHolds crowded ([] ∷ threefold ∷ twice ∷ [] ∷ [] ∷ [])
crowded-TreeHolds = record {
  buffered = filled-IsValid;
  on_disk = (
    tt,
    (
      (copy-Holds 1 0, (copy-Holds 1 1, (copy-Holds 1 2, tt))),
      ((copy-Holds 2 0, (copy-Holds 2 1, tt)), (tt, (tt, tt))),
    ),
  );
}

crowded-LevelsNamed : LevelsNamed 0 crowded.levels
crowded-LevelsNamed = (tt, ((refl, (refl, (refl, tt))), ((refl, (refl, tt)), (tt, (tt, tt)))))

filled_bits :
    0
    < optimal_bits coarse
        (length (SkipList.get_all_sorted filled))
        (calculate_fpr_for_level coarse 4 1)
unfolding optimal_bits calculate_fpr_for_level
filled_bits = omega arith

filled_left : is_empty (merged sort (threefold ++ SkipList.get_all_sorted filled ∷ [])) ≡ false
unfolding merged insertion_sort insert_pair deduplicate rank SkipList.get_all_sorted
    SkipList.pairs_of
filled_left = refl

merge_bits :
    0
    < optimal_bits coarse
        (length (merged sort (threefold ++ SkipList.get_all_sorted filled ∷ [])))
        (calculate_fpr_for_level coarse 4 2)
unfolding optimal_bits calculate_fpr_for_level
merge_bits = omega arith

filled_room :
    MergesInPlace coarse sort base lazy
      (twice ++ merged sort (threefold ++ SkipList.get_all_sorted filled ∷ []) ∷ [])
unfolding merged insertion_sort insert_pair deduplicate rank SkipList.get_all_sorted
    SkipList.pairs_of optimal_bits calculate_fpr_for_level get_target_level_for_size
filled_room = record {
  due = refl;
  levels = inl refl;
  left = refl;
  small = refl;
  bits = omega arith;
  allowed = record { data_file = refl; bloom_file = refl; fence_file = refl };
}

flush_buffer-Preserved_example :
    (t : LsmTree) × (runs : List (List KeyValuePair)) × (flush_buffer coarse sort crowded
      ≡ (ok tt, t))
    × TreeHolds t ([] ∷ [] ∷ runs ∷ [] ∷ [] ∷ [])
    × LevelsNamed 0 t.levels
    × (SkipList.get_all_sorted t.buffer ≡ [])
    × ((k : ℕ)
        → Preserved
            (Varies lazy sort k (threefold ++ SkipList.get_all_sorted filled ∷ []) twice)
            (newest k (SkipList.get_all_sorted filled) ([] ∷ threefold ∷ twice ∷ [] ∷ [] ∷ []))
            (newest k (SkipList.get_all_sorted t.buffer) ([] ∷ [] ∷ runs ∷ [] ∷ [] ∷ [])))
flush_buffer-Preserved_example =
    flush_buffer-Preserved coarse sort base top three_runs lazy (third ∷ fourth ∷ []) threefold
      twice ([] ∷ [] ∷ []) (insertion_sort-IsSort true) refl refl refl crowded-TreeHolds
      crowded-LevelsNamed refl filled-Fits filled_bits
      (record { data_file = refl; bloom_file = refl; fence_file = refl }) filled_left merge_bits
      (record { data_file = refl; bloom_file = refl; fence_file = refl }) refl (inr filled_room)

abbrev small : LsmTree
small = record base { buffer_size_bytes = 100 }

over_bits :
    0
    < optimal_bits coarse
        (length (SkipList.get_all_sorted over))
        (calculate_fpr_for_level coarse 4 1)
unfolding optimal_bits calculate_fpr_for_level
over_bits = omega arith

over_left : is_empty (merged sort (threefold ++ SkipList.get_all_sorted over ∷ [])) ≡ false
unfolding merged insertion_sort insert_pair deduplicate rank SkipList.get_all_sorted
    SkipList.pairs_of insert insert_at find_predecessors descend walk
over_left = refl

over_merge_bits :
    0
    < optimal_bits coarse
        (length (merged sort (threefold ++ SkipList.get_all_sorted over ∷ [])))
        (calculate_fpr_for_level coarse 4 2)
unfolding optimal_bits calculate_fpr_for_level
over_merge_bits = omega arith

over_room :
    MergesInPlace coarse sort small lazy
      (twice ++ merged sort (threefold ++ SkipList.get_all_sorted over ∷ []) ∷ [])
unfolding merged insertion_sort insert_pair deduplicate rank SkipList.get_all_sorted
    SkipList.pairs_of insert insert_at find_predecessors descend walk optimal_bits
    calculate_fpr_for_level get_target_level_for_size
over_room = record {
  due = refl;
  levels = inl refl;
  left = refl;
  small = refl;
  bits = omega arith;
  allowed = record { data_file = refl; bloom_file = refl; fence_file = refl };
}

put-Preserved_example :
    (t : LsmTree) × (runs : List (List KeyValuePair)) × (put coarse sort 5 51 1
        (record small { levels = top ∷ three_runs ∷ lazy ∷ third ∷ fourth ∷ [] })
      ≡ (ok tt, t))
    × TreeHolds t ([] ∷ [] ∷ runs ∷ [] ∷ [] ∷ [])
    × LevelsNamed 0 t.levels
    × (SkipList.get_all_sorted t.buffer ≡ [])
    × ((k : ℕ)
        → Preserved
            (Varies lazy sort k (threefold ++ SkipList.get_all_sorted over ∷ []) twice)
            (if 5 == k
              then some 51
              else newest k
                  (SkipList.get_all_sorted filled)
                  ([] ∷ threefold ∷ twice ∷ [] ∷ [] ∷ []))
            (newest k (SkipList.get_all_sorted t.buffer) ([] ∷ [] ∷ runs ∷ [] ∷ [] ∷ [])))
put-Preserved_example =
    put-Preserved coarse sort small top three_runs lazy (third ∷ fourth ∷ []) threefold twice
      ([] ∷ [] ∷ []) 5 51 1 (insertion_sort-IsSort true) refl refl refl
      (record { buffered = filled-IsValid; on_disk = crowded-TreeHolds.on_disk })
      crowded-LevelsNamed over_full over-Fits over_bits
      (record { data_file = refl; bloom_file = refl; fence_file = refl }) over_left over_merge_bits
      (record { data_file = refl; bloom_file = refl; fence_file = refl }) refl (inr over_room)
