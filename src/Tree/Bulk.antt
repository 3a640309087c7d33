-- ===== src/Tree/Bulk.antt =====
-- `bulk_load_file` of src/lsm_tree.cpp: the pairs of a file are sorted, merged and cut into one run for
-- each level. `level_data_mb` is a list of `double`s, the first of them for level 1; there is a level 1,
-- since `max_level` starts at 6 and only grows.
pub mod Settings
pub mod Count
pub mod Termination
use cs.Prelude.{
  ℕ, zero, suc, ◌+◌, ◌-◌, ◌*◌, ◌/◌, min, List, [], ◌∷◌, Bool, true, false, ltb, ◌==◌, if◌then◌else◌,
  length, set, take, drop,
}
use cs.Result.{Result, ok, err, division_by_zero, is_exception}
use cs.Pair.{KeyValuePair, decode}
use cs.Double.{Doubles, zero_double, four_double}
use cs.Compaction.{deduplicate}
use cs.Store.{FileName, open_file}
use cs.Run.{pair_size}
use cs.Level
use cs.Level.{Level}
use cs.Tree.{LsmTree, TreeAction, ◌>>=◌, ◌>>◌, return, modify, on_store, level_at}
use cs.Tree.Compact.{append_run}
use cs.Tree.Upkeep.{compact, set_buffer_size, set_compaction_enabled}

abbrev pub zeros : ℕ → List ℕ
zeros zero = []
zeros (suc n) = zero_double ∷ zeros n

module _ (d : Doubles) where
  -- `level_capacities_mb[level - 1]`; the default buffer has 4 MB.
  unfoldable pub level_capacity : ℕ → ℕ
  level_capacity level = d.mul four_double (d.pow four_double (d.of_diff level 1))

  -- `while (target_level <= max_level && ...)`, with the number of levels that are left.
  unfoldable pub lowest_level_loop : ℕ → ℕ → ℕ → ℕ
  unfolding level_capacity
  lowest_level_loop zero size_mb level = level
  lowest_level_loop (suc left) size_mb level =
      let next = lowest_level_loop left size_mb (level + 1) in
      if d.lt (level_capacity level) (d.of_size size_mb) then next else level

  abbrev pub lowest_level : ℕ → ℕ → ℕ
  lowest_level max_level size_mb =
      let target = lowest_level_loop max_level size_mb 1 in
      if ltb max_level target then max_level else target

  -- What a level is given of the data that remains.
  unfoldable pub data_for_level : ℕ → ℕ → ℕ
  unfolding level_capacity
  data_for_level level remaining =
      let prev = if ltb 1 level then level_capacity (level - 1) else four_double in
      let data_mb = d.mul (d.of_diff (d.to_int (d.div remaining prev)) 0) prev in
      if d.lt remaining data_mb then remaining else data_mb

  -- `for (int level = target_level; level > 0 && remaining_data_mb > 0; level--)`
  unfoldable pub allot : ℕ → ℕ → List ℕ → List ℕ × ℕ
  unfolding data_for_level
  allot zero remaining mbs = (mbs, remaining)
  allot (suc below) remaining mbs =
      let given = data_for_level (suc below) remaining in
      let next = allot below (d.sub remaining given) (set mbs below given) in
      if d.lt zero_double remaining then next else (mbs, remaining)

  abbrev pub add_to_first : ℕ → List ℕ → List ℕ
  add_to_first more [] = []
  add_to_first more (mb ∷ mbs) = d.add mb more ∷ mbs

  -- `level_data_mb`
  unfoldable pub level_data : ℕ → ℕ → List ℕ
  unfolding allot lowest_level_loop
  level_data max_level size_mb =
      let (mbs, remaining) =
        allot (lowest_level max_level size_mb) (d.of_size size_mb) (zeros max_level) in
      if d.lt zero_double remaining then add_to_first remaining mbs else mbs

  -- `pair_count`, 0 for a level without an allocation.
  unfoldable pub pair_count : ℕ → ℕ → List KeyValuePair → ℕ
  pair_count pairs_per_mb mb pairs =
      if d.le mb zero_double
      then 0
      else min (d.to_size (d.mul mb (d.of_size pairs_per_mb))) (length pairs)

  -- `highest_used_level`: the position of the last allocation, counted from 1.
  unfoldable pub highest_used_level : List ℕ → ℕ
  highest_used_level [] = 0
  highest_used_level (mb ∷ mbs) =
      let deeper = highest_used_level mbs in
      if ltb 0 deeper then deeper + 1 else if d.le mb zero_double then 0 else 1

  module _ (sort : List KeyValuePair → List KeyValuePair) where
    unfoldable pub bulk_run : ℕ → List KeyValuePair → TreeAction (Unit {0})
    unfolding append_run
    bulk_run level [] = return tt
    bulk_run level (p ∷ ps) = do
      l ← level_at level
      append_run d sort (p ∷ ps) level (Level.run_count l)

    -- One run for each level with an allocation, from level 1 on. The pairs behind `start_idx` are left.
    unfoldable pub distribute : ℕ → ℕ → List ℕ → List KeyValuePair → TreeAction (List KeyValuePair)
    unfolding bulk_run pair_count
    distribute level pairs_per_mb [] pairs = return pairs
    distribute level pairs_per_mb (mb ∷ mbs) pairs = do
      bulk_run level (take (pair_count pairs_per_mb mb pairs) pairs)
      distribute (level + 1) pairs_per_mb mbs (drop (pair_count pairs_per_mb mb pairs) pairs)

    -- The pairs that no level took.
    abbrev pub put_remaining : ℕ → List KeyValuePair → TreeAction (Unit {0})
    put_remaining zero pairs = return tt
    put_remaining (suc level) pairs = bulk_run (suc level) pairs

    unfoldable pub distribute_all : ℕ → List KeyValuePair → TreeAction (Unit {0})
    unfolding level_data distribute highest_used_level
    distribute_all size_mb pairs t =
        let mbs = level_data t.max_level size_mb in
        if size_mb == 0
        then (err division_by_zero, t)
        else (do
          remaining ← distribute 1 (length pairs / size_mb) mbs pairs
          put_remaining (highest_used_level mbs) remaining)
            t

    -- The loop that keeps the last value of each key is that of `perform_compaction`.
    unfoldable pub sorted_pairs : List KeyValuePair → List KeyValuePair
    unfolding deduplicate
    sorted_pairs pairs =
        if ltb 1 (length (sort pairs)) then deduplicate (sort pairs) else sort pairs

    -- The block of `try`. The size in megabytes is that of the file, before the merge.
    unfoldable pub bulk_load : FileName → TreeAction (Unit {0})
    unfolding set_buffer_size set_compaction_enabled distribute_all sorted_pairs compact
    bulk_load filepath = do
      modify (λ t. record t { locked = true })
      set_buffer_size (100 * 1024 * 1024)
      set_compaction_enabled false
      content ← on_store (open_file filepath)
      distribute_all (length (decode content) * pair_size / (1024 * 1024))
          (sorted_pairs (decode content))
      modify (λ t. record t { locked = false })
      set_compaction_enabled true
      compact d sort

    -- The handler of exceptions restores both settings, the end of the function one of them.
    abbrev pub restored : LsmTree → Result (Unit {0}) × LsmTree → Result (Unit {0}) × LsmTree
    restored original (ok done, t) =
        (ok done, record t { buffer_size_bytes = original.buffer_size_bytes })
    restored original (err e, t) =
        if is_exception e
        then (
          err e,
          record t {
            buffer_size_bytes = original.buffer_size_bytes;
            compaction_enabled = original.compaction_enabled;
            locked = false;
          },
        )
        else (err e, t)

    unfoldable pub bulk_load_file : FileName → TreeAction (Unit {0})
    unfolding bulk_load
    bulk_load_file filepath t = restored t (bulk_load filepath t)
