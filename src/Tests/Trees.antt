-- ===== src/Tests/Trees.antt =====
-- Examples on the whole tree.
use cs.Prelude.{
  ℕ, ◌+◌, ◌<◌, ◌≡◌, inr, refl, List, [], ◌∷◌, some, true, false, ◌==◌, if◌then◌else◌, arith, length,
}
use cs.Int64.{rank, tombstone}
use cs.Result.{ok, err, division_by_zero}
use cs.Pair.{KeyValuePair, Ascends, Fits, lookup}
use cs.Bloom.{optimal_bits}
use cs.SkipList
use cs.SkipList.{SkipList, is_full, insert, insert_at, empty, find_predecessors, descend, walk}
use cs.Level.{Level, tiering, leveling}
use cs.Tree.{LsmTree, calculate_fpr_for_level}
use cs.Tree.Access.{get, put, range, remove}
use cs.Tree.Range.{range-has_version}
use cs.Tree.Versions.{has_version, in_range}
use cs.Run.Ended.{ended}
use cs.Tree.Termination.{ended-flush_buffer}
use cs.Tree.Compact.{append_run, flush_buffer}
use cs.Tree.Holds.{TreeHolds, newest}
use cs.Tree.Names.{LevelsNamed}
use cs.Tree.Get.{get-newest}
use cs.Tree.Full.{put-newest}
use cs.Tree.Put.{put_lem, get-remove}
use cs.Tree.Flush.{flush_buffer-newest}
use cs.Tree.Deepest.{append_run_deepest}
use cs.Compaction.Sorting.{insertion_sort, insertion_sort-IsSort}
use cs.Tests.{two, coarse, coarse-IsExact, stored, run, run-Holds}
use cs.Tests.Buffer.{filled, filled-IsValid}

abbrev top : Level
top = record { level_number = 0; strategy = tiering; runs = [] }

abbrev first : Level
first = record { level_number = 1; strategy = tiering; runs = run ∷ [] }

abbrev second : Level
second = record { level_number = 2; strategy = leveling; runs = [] }

abbrev pub tree : LsmTree
tree = record {
  buffer = filled;
  levels = top ∷ first ∷ second ∷ [];
  max_level = 2;
  buffer_size_bytes = 4096;
  compaction_enabled = true;
  read_count = 0;
  write_count = 0;
  store = stored;
  locked = false;
}

abbrev pub held : List (List (List KeyValuePair))
held = [] ∷ (two ∷ []) ∷ [] ∷ []

pub tree-TreeHolds : TreeHolds tree held
tree-TreeHolds = record { buffered = filled-IsValid; on_disk = (tt, ((run-Holds, tt), (tt, tt))) }

tree-LevelsNamed : LevelsNamed 0 tree.levels
tree-LevelsNamed = (tt, ((refl, tt), (tt, tt)))

get-newest_example :
    (t : LsmTree) × (get 5 tree ≡ (ok (newest 5 (SkipList.get_all_sorted filled) held), t))
    × TreeHolds t held
    × (t.buffer ≡ filled)
    × (t.levels ≡ tree.levels)
    × (t.read_count ≡ tree.read_count + 1)
get-newest_example = get-newest tree held 5 tree-TreeHolds

has_room : (value : ℕ) → is_full 4096 (insert filled 5 value 1) ≡ false
unfolding is_full insert insert_at find_predecessors descend walk rank
has_room value = refl

put_lem_example :
    (t : LsmTree) × (put coarse (insertion_sort true) 5 51 1 tree ≡ (ok tt, t))
    × TreeHolds t held
    × ((k : ℕ)
        → newest k (SkipList.get_all_sorted t.buffer) held
          ≡ (if 5 == k then some 51 else newest k (SkipList.get_all_sorted filled) held))
    × (t.levels ≡ tree.levels)
    × (t.write_count ≡ tree.write_count + 1)
put_lem_example = put_lem coarse (insertion_sort true) tree held 5 1 51 tree-TreeHolds (has_room 51)

get-remove_example :
    (t t' : LsmTree) × (remove coarse (insertion_sort true) 5 1 tree ≡ (ok true, t))
    × (get 5 t ≡ (ok (some tombstone), t'))
    × (t.levels ≡ tree.levels)
get-remove_example =
    get-remove coarse (insertion_sort true) tree held 5 1 tree-TreeHolds (has_room tombstone)

some_bits :
    0
    < optimal_bits coarse
        (length (SkipList.get_all_sorted filled))
        (calculate_fpr_for_level coarse 2 1)
unfolding optimal_bits calculate_fpr_for_level
some_bits = omega arith

pub filled-Fits : Fits (SkipList.get_all_sorted filled)
unfolding SkipList.get_all_sorted SkipList.pairs_of
filled-Fits = (omega arith, omega arith, (omega arith, omega arith, tt))

flush_buffer-newest_example :
    (t : LsmTree) × (flush_buffer coarse (insertion_sort true) tree ≡ (ok tt, t))
    × TreeHolds t ([] ∷ (two ∷ SkipList.get_all_sorted filled ∷ []) ∷ [] ∷ [])
    × LevelsNamed 0 t.levels
    × (SkipList.get_all_sorted t.buffer ≡ [])
    × ((k : ℕ)
        → newest k
            (SkipList.get_all_sorted t.buffer)
            ([] ∷ (two ∷ SkipList.get_all_sorted filled ∷ []) ∷ [] ∷ [])
          ≡ newest k (SkipList.get_all_sorted filled) held)
flush_buffer-newest_example =
    flush_buffer-newest coarse (insertion_sort true) tree top first (second ∷ []) (two ∷ [])
      ([] ∷ []) tree-TreeHolds tree-LevelsNamed refl filled-Fits some_bits
      (record { data_file = refl; bloom_file = refl; fence_file = refl }) (inr refl)

append_run_deepest_example :
    (append_run coarse (insertion_sort true) two 2 0 tree).0 ≡ err division_by_zero
append_run_deepest_example =
    append_run_deepest coarse (insertion_sort true) tree two 0 coarse-IsExact refl refl refl

range-has_version_example :
    (rs : List KeyValuePair) × (t : LsmTree) × (range coarse (insertion_sort true) 4 9 tree
      ≡ (ok rs, t))
    × TreeHolds t held
    × Ascends 0 rs
    × ((k v : ℕ)
        → lookup k rs ≡ some v
        → (in_range 4 9 k ≡ true) × (has_version k v (SkipList.get_all_sorted filled) held ≡ true))
    × ((k v : ℕ)
        → in_range 4 9 k ≡ true
        → has_version k v (SkipList.get_all_sorted filled) held ≡ true
        → (w : ℕ) × (lookup k rs ≡ some w))
range-has_version_example =
    range-has_version 4 9 coarse (insertion_sort true) tree held (insertion_sort-IsSort true)
      tree-TreeHolds

-- Four runs in level 1 after the flush, which is then due.
abbrev crowded : LsmTree
crowded = record tree { levels = top ∷ record first { runs = run ∷ run ∷ run ∷ [] } ∷ second ∷ [] }

ended-flush_buffer_example : ended (flush_buffer coarse (insertion_sort true) crowded).0 ≡ true
ended-flush_buffer_example = ended-flush_buffer coarse (insertion_sort true) crowded

-- Three pairs are more than this buffer takes.
abbrev small : LsmTree
small = record tree { buffer_size_bytes = 100 }

abbrev pub over : SkipList
over = insert filled 5 51 1

pub over_full : is_full 100 over ≡ true
unfolding is_full insert insert_at find_predecessors descend walk rank
over_full = refl

pub over-Fits : Fits (SkipList.get_all_sorted over)
unfolding insert insert_at find_predecessors descend walk rank SkipList.get_all_sorted
    SkipList.pairs_of
over-Fits = (omega arith, omega arith, (omega arith, omega arith, (omega arith, omega arith, tt)))

over_bits :
    0
    < optimal_bits coarse
        (length (SkipList.get_all_sorted over))
        (calculate_fpr_for_level coarse 2 1)
unfolding optimal_bits calculate_fpr_for_level
over_bits = omega arith

put-newest_example :
    (t : LsmTree) × (put coarse (insertion_sort true) 5 51 1 small ≡ (ok tt, t))
    × TreeHolds t ([] ∷ (two ∷ SkipList.get_all_sorted over ∷ []) ∷ [] ∷ [])
    × LevelsNamed 0 t.levels
    × (SkipList.get_all_sorted t.buffer ≡ [])
    × ((k : ℕ)
        → newest k
            (SkipList.get_all_sorted t.buffer)
            ([] ∷ (two ∷ SkipList.get_all_sorted over ∷ []) ∷ [] ∷ [])
          ≡ (if 5 == k then some 51 else newest k (SkipList.get_all_sorted filled) held))
put-newest_example =
    put-newest coarse (insertion_sort true) small top first (second ∷ []) (two ∷ []) ([] ∷ []) 5 51
      1 (record { buffered = filled-IsValid; on_disk = tree-TreeHolds.on_disk }) tree-LevelsNamed
      over_full over-Fits over_bits
      (record { data_file = refl; bloom_file = refl; fence_file = refl }) (inr refl)
