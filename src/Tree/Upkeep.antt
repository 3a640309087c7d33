-- ===== src/Tree/Upkeep.antt =====
-- The operations of `LSMTree` that no command of a client names, in src/lsm_tree.cpp: compaction on
-- request, loading a file pair by pair, the destructor, the settings and the counters.
pub mod Locked
pub mod Termination
use cs.Prelude.{ℕ, zero, suc, ◌+◌, List, [], ◌∷◌, Bool, true, ltb, if◌then◌else◌, length}
use cs.Result.{ok, err, no_fuel}
use cs.Pair.{KeyValuePair, decode}
use cs.Double.{Doubles}
use cs.Store.{FileName, open_file}
use cs.Tree.{TreeAction, ◌>>=◌, ◌>>◌, modify, on_store}
use cs.Tree.Compact.{flush_buffer, perform_compaction, compact_if_due}
use cs.Tree.Access.{put_all, released}

-- `set_buffer_size`
unfoldable pub set_buffer_size : ℕ → TreeAction (Unit {0})
set_buffer_size new_size = modify (λ t. record t { buffer_size_bytes = new_size })

-- `set_compaction_enabled`
unfoldable pub set_compaction_enabled : Bool → TreeAction (Unit {0})
set_compaction_enabled enabled = modify (λ t. record t { compaction_enabled = enabled })

-- `reset_io_stats`
unfoldable pub reset_io_stats : TreeAction (Unit {0})
reset_io_stats =
    modify (λ t. record t { store = record t.store { read_io_count = 0; write_io_count = 0 } })

-- `reset_timing_stats`, without the measured times.
unfoldable pub reset_timing_stats : TreeAction (Unit {0})
reset_timing_stats = modify (λ t. record t { read_count = 0; write_count = 0 })

-- The bytes of a file, as pairs with the height of the node that each of them is given.
unfoldable pub drawn : (ℕ → ℕ) → ℕ → List KeyValuePair → List (KeyValuePair × ℕ)
drawn draw i [] = []
drawn draw i (p ∷ ps) = (p, draw i) ∷ drawn draw (i + 1) ps

module _ (d : Doubles) (sort : List KeyValuePair → List KeyValuePair) where
  -- `for (; i < levels.size(); ++i)` with the compaction of the levels that are due. A compaction may
  -- add levels.
  unfoldable pub compact_from : ℕ → ℕ → TreeAction (Unit {0})
  unfolding perform_compaction
  compact_from zero i t = if ltb i (length t.levels) then (err no_fuel, t) else (ok tt, t)
  compact_from (suc fuel) i t =
      if ltb i (length t.levels)
      then (do
        compact_if_due d sort (perform_compaction d sort (length t.levels + 1)) i
        compact_from fuel (i + 1))
          t
      else (ok tt, t)

  -- Where the lock is held, no level can be added: `check_and_extend_levels` would wait for the lock.
  unfoldable pub compact : TreeAction (Unit {0})
  unfolding compact_from
  compact t = released (compact_from (length t.levels) 0 (record t { locked = true }))

  -- `~LSMTree`
  unfoldable pub destroy : TreeAction (Unit {0})
  unfolding flush_buffer
  destroy t = if ltb 0 t.buffer.num_elements then flush_buffer d sort t else (ok tt, t)

  -- `draw` is what the random generator gives. The reading in chunks of a thousand pairs does not
  -- change the order of the puts.
  unfoldable pub load_file : FileName → (ℕ → ℕ) → TreeAction (Unit {0})
  unfolding put_all drawn
  load_file filepath draw = do
    content ← on_store (open_file filepath)
    put_all d sort (drawn draw 0 (decode content))
