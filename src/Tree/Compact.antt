-- ===== src/Tree/Compact.antt =====
-- `flush_buffer` and `perform_compaction` of src/lsm_tree.cpp.
use cs.Prelude.{
  ℕ, zero, suc, ◌+◌, ◌*◌, List, [], ◌∷◌, ◌++◌, ltb, leb, ◌==◌, if◌then◌else◌, length, is_empty,
}
use cs.Result.{ok, err, no_fuel}
use cs.Pair.{KeyValuePair}
use cs.Double.{Doubles}
use cs.SkipList
use cs.Compaction.{deduplicate}
use cs.Store
use cs.Run
use cs.Run.{Run, pair_size}
use cs.Level
use cs.Level.{Level, CompactionStrategy, tiering, lazy_leveling, leveling, tiering_threshold}
use cs.Tree.{
  TreeAction, ◌>>=◌, ◌>>◌, return, modify, on_store, level_at, add_run_at, clear_level,
  calculate_fpr_for_level, get_target_level_for_size, check_and_extend_levels,
}

-- The pairs of all runs of a level, the oldest run first.
unfoldable pub collect : List Run → Store.Action (List KeyValuePair)
collect [] = Store.return []
collect (r ∷ rs) =
    Store.◌>>=◌ (Run.get_all_pairs r)
      (λ ps. Store.◌>>=◌ (collect rs) (λ qs. Store.return (ps ++ qs)))

module _ (d : Doubles) (sort : List KeyValuePair → List KeyValuePair) where
  -- A new run in a level, behind those that it has.
  unfoldable pub append_run : List KeyValuePair → ℕ → ℕ → TreeAction (Unit {0})
  unfolding add_run_at
  append_run pairs level run_id t =
      (do
        r ← on_store (Run.create d pairs level run_id (calculate_fpr_for_level d t.max_level level))
        add_run_at level r)
        t

  -- `if (i == max_level && levels[i]->run_count() > 0) check_and_extend_levels();`
  unfoldable pub extend_if_used : ℕ → TreeAction (Unit {0})
  unfolding check_and_extend_levels
  extend_if_used i t =
      if i == t.max_level
      then (do
        l ← level_at i
        if ltb 0 (Level.run_count l) then check_and_extend_levels d else return tt)
          t
      else (ok tt, t)

  module _ (compact_next : ℕ → TreeAction (Unit {0})) where
    -- `if (levels[i]->needs_compaction()) perform_compaction(i);`
    abbrev pub compact_if_due : ℕ → TreeAction (Unit {0})
    compact_if_due i = do
      l ← level_at i
      if Level.needs_compaction l then compact_next i else return tt

    -- The new run is appended before the old level is cleared.
    abbrev pub move_down : List KeyValuePair → ℕ → ℕ → ℕ → TreeAction (Unit {0})
    move_down pairs level target run_id = do
      append_run pairs target run_id
      clear_level level
      compact_if_due target

    abbrev pub tier_down : List KeyValuePair → ℕ → TreeAction (Unit {0})
    tier_down pairs level = do
      next ← level_at (level + 1)
      if is_empty pairs
          then clear_level level
          else move_down pairs level (level + 1) (Level.run_count next)

    -- The case `TIERING`.
    unfoldable pub compact_tiering : List KeyValuePair → ℕ → ℕ → TreeAction (Unit {0})
    unfolding append_run clear_level extend_if_used
    compact_tiering pairs level count = do
      if leb tiering_threshold count then tier_down pairs level else return tt
      extend_if_used (level + 1)

    abbrev pub sink : List KeyValuePair → ℕ → ℕ → TreeAction (Unit {0})
    sink pairs level target = do
      l ← level_at target
      move_down pairs level target (Level.run_count l)

    abbrev pub in_place : List KeyValuePair → ℕ → TreeAction (Unit {0})
    in_place pairs level = do clear_level level; append_run pairs level 0

    -- The cases `LAZY_LEVELING` and `LEVELING`, which differ in their log lines only.
    unfoldable pub compact_leveling : List KeyValuePair → ℕ → TreeAction (Unit {0})
    unfolding append_run clear_level extend_if_used get_target_level_for_size
    compact_leveling pairs level t =
        (do
          let target = get_target_level_for_size d t (length pairs * pair_size)
          if is_empty pairs
              then clear_level level
              else if ltb level target
              then sink pairs level target
              else in_place pairs level
          extend_if_used level)
          t

    abbrev pub by_strategy : CompactionStrategy → List KeyValuePair → ℕ → ℕ → TreeAction (Unit {0})
    by_strategy tiering pairs level count = compact_tiering pairs level count
    by_strategy lazy_leveling pairs level count = compact_leveling pairs level
    by_strategy leveling pairs level count = compact_leveling pairs level

    unfoldable pub compact_level : ℕ → TreeAction (Unit {0})
    unfolding compact_tiering compact_leveling collect
    compact_level level = do
      l ← level_at level
      all_pairs ← on_store (collect l.runs)
      if is_empty all_pairs
          then return tt
          else by_strategy l.strategy (deduplicate (sort all_pairs)) level (length l.runs)

  -- Each compaction that another one starts is of a deeper level.
  unfoldable pub perform_compaction : ℕ → ℕ → TreeAction (Unit {0})
  unfolding compact_level
  perform_compaction zero level t = (err no_fuel, t)
  perform_compaction (suc fuel) level t =
      if t.compaction_enabled then compact_level (perform_compaction fuel) level t else (ok tt, t)

  abbrev pub compact_if_enabled : TreeAction (Unit {0})
  compact_if_enabled t =
      if t.compaction_enabled
      then compact_if_due (perform_compaction (length t.levels)) 1 t
      else (ok tt, t)

  abbrev pub flush_pairs : List KeyValuePair → TreeAction (Unit {0})
  flush_pairs pairs = do
    l ← level_at 1
    append_run pairs 1 (Level.run_count l)
    modify (λ t. record t { buffer = SkipList.empty })
    compact_if_enabled

  unfoldable pub flush_buffer : TreeAction (Unit {0})
  unfolding append_run perform_compaction
  flush_buffer t =
      if t.buffer.num_elements == 0
      then (ok tt, t)
      else flush_pairs (SkipList.get_all_sorted t.buffer) t
