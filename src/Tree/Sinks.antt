-- ===== src/Tree/Sinks.antt =====
-- `perform_compaction` on a level of one of the leveling strategies, where the merged pairs are too many
-- for it: they go to a deeper level.
use cs.Prelude.{
  ℕ, suc, ◌+◌, ◌*◌, ◌≡◌, ◌<◌, refl, ap, ◌∙◌, List, [], ◌∷◌, ◌++◌, some, none, true, false, arith,
  length, length-append, ltb, is_empty, ◌==◌, get_elem?, lt→ltb,
}
use cs.Result.{ok}
use cs.Pair.{KeyValuePair}
use cs.Double.{Doubles}
use cs.Bloom.{optimal_bits}
use cs.SkipList
use cs.Compaction.Sorting.{IsSort}
use cs.Run.{Run, data_filename, pair_size}
use cs.Run.Create.{IsAllowed}
use cs.Level
use cs.Level.{Level, is_due}
use cs.Tree.{LsmTree, TreeAction, calculate_fpr_for_level, get_target_level_for_size}
use cs.Tree.Compact.{
  compact_if_due, move_down, extend_if_used, compact_leveling, perform_compaction,
}
use cs.Tree.Holds.{TreeHolds, newest, newest_of_levels}
use cs.Tree.Names.{LevelsNamed}
use cs.Tree.Merge.{merged, lookup-merged, merged_nonempty}
use cs.Tree.Splits.{LevelsHold-split}
use cs.Tree.Moves.{cleared, moved, target_there}
use cs.Tree.Moved.{move_down-Holds}
use cs.Tree.Leveling.{IsLeveling, leveling_lem}
use cs.Tree.Preserved.{Merges, newest-moved}

module _ (d : Doubles) (sort : List KeyValuePair → List KeyValuePair) (fuel : ℕ) (t : LsmTree)
    (above : List Level) (l : Level) (mid : List Level) (m : Level) (deeper : List Level)
    (apsss : List (List (List KeyValuePair))) (pss : List (List KeyValuePair))
    (mids : List (List (List KeyValuePair))) (tss : List (List KeyValuePair))
    (rest : List (List (List KeyValuePair))) where
  abbrev before : LsmTree
  before = record t { levels = above ++ l ∷ (mid ++ m ∷ deeper) }

  abbrev next : ℕ → TreeAction (Unit {0})
  next = perform_compaction d sort fuel

  abbrev a : ℕ
  a = length above

  abbrev b : ℕ
  b = length above + suc (length mid)

  sinks_lem :
      (ps : List KeyValuePair) (after : LsmTree)
      → is_empty ps ≡ false
      → get_target_level_for_size d before (length ps * pair_size) ≡ b
      → (a == after.max_level) ≡ false
      → move_down d sort next ps a b (length m.runs) before ≡ (ok tt, after)
      → compact_leveling d sort next ps a before ≡ (ok tt, after)
  unfolding compact_leveling extend_if_used Level.run_count
  sinks_lem ps after left target inner moves =
      let deep : ltb a b ≡ true = lt→ltb a b (omega arith) in
      rw (left, target, deep, target_there d sort next t above l mid m deeper l m, moves, inner)

  settled_lem :
      (r : Run) (after : LsmTree)
      → after.levels ≡ above ++ cleared l ∷ (mid ++ Level.add_run m r ∷ deeper)
      → is_due m.strategy (length m.runs + 1) ≡ false
      → compact_if_due d sort next b after ≡ (ok tt, after)
  unfolding Level.needs_compaction Level.add_run
  settled_lem r after e calm =
      let there : get_elem? after.levels b ≡ some (Level.add_run m r) =
        ap (λ ls. get_elem? ls b) e
        ∙ target_there d sort next t above l mid m deeper (cleared l) (Level.add_run m r) in
      let longer : length (m.runs ++ r ∷ []) ≡ length m.runs + 1 =
        omega (arith, length-append m.runs (r ∷ [])) in
      rw (there, longer, calm)

  -- A compaction of a leveling or lazy leveling level, not max_level, whose merged pairs are too many
  -- for it and go to a deeper level that is not due after it: for a sort that meets the contract of `std::sort` and on
  -- a well-formed tree whose runs are named after their places, where the levels in between hold no key, some
  -- pair is left after the merge, the filter of the new run has bits and its files may be
  -- created, it succeeds, empties the level, puts the merged pairs behind the runs of the deeper
  -- level and keeps the tree well formed; every key has its newest value, but a key that the
  -- merged runs hold with several values may have another one of these, and a key whose value of the level
  -- marks a deletion has what the deeper levels hold for it.
  pub perform_compaction-sink :
      length apsss ≡ length above
      → length mids ≡ length mid
      → IsSort sort
      → t.compaction_enabled ≡ true
      → IsLeveling l.strategy
      → TreeHolds
          (record t { levels = above ++ l ∷ (mid ++ m ∷ deeper) })
          (apsss ++ pss ∷ (mids ++ tss ∷ rest))
      → LevelsNamed 0 (above ++ l ∷ (mid ++ m ∷ deeper))
      → ((k : ℕ) → newest_of_levels k mids ≡ none)
      → is_empty (merged sort pss) ≡ false
      → get_target_level_for_size d
          (record t { levels = above ++ l ∷ (mid ++ m ∷ deeper) })
          (length (merged sort pss) * pair_size)
        ≡ length above + suc (length mid)
      → 0
        < optimal_bits d
            (length (merged sort pss))
            (calculate_fpr_for_level d t.max_level (length above + suc (length mid)))
      → IsAllowed t.store (data_filename (length above + suc (length mid)) (length m.runs))
      → is_due m.strategy (length m.runs + 1) ≡ false
      → (length above == t.max_level) ≡ false
      → (t' : LsmTree) × (perform_compaction d sort
            (suc fuel)
            (length above)
            (record t { levels = above ++ l ∷ (mid ++ m ∷ deeper) })
          ≡ (ok tt, t'))
        × TreeHolds t' (apsss ++ [] ∷ (mids ++ (tss ++ merged sort pss ∷ []) ∷ rest))
        × LevelsNamed 0 t'.levels
        × (t'.buffer ≡ t.buffer)
        × ((k : ℕ)
            → Merges k (SkipList.get_all_sorted t.buffer) apsss pss (mids ++ tss ∷ rest) (
                newest k
                  (SkipList.get_all_sorted t'.buffer)
                  (apsss ++ [] ∷ (mids ++ (tss ++ merged sort pss ∷ []) ∷ rest))))
  unfolding moved
  perform_compaction-sink e e' std on levels h named free left target bits allowed calm inner =
      let below = l ∷ (mid ++ m ∷ deeper) in
      let (h₀, h₁) =
        LevelsHold-split t.store above below apsss (pss ∷ (mids ++ tss ∷ rest)) e h.on_disk in
      let (fits, ascends, finds) = lookup-merged sort t.store l.runs pss std h₁.0 in
      let some_pairs = merged_nonempty sort t.store l.runs pss std h₁.0 left in
      let (r, s, moves, h', named', rights) =
        move_down-Holds d sort next t above l mid m deeper apsss pss mids tss rest (merged sort pss)
          e e' h.on_disk named left fits ascends bits allowed in
      let after : LsmTree = moved d sort next t above l mid m deeper r s in
      (
        after,
        leveling_lem d sort fuel t above l (mid ++ m ∷ deeper) apsss pss (mids ++ tss ∷ rest) on
              levels h₁.0 some_pairs
            ∙ sinks_lem (merged sort pss) after left target inner
                (moves ∙ settled_lem r after refl calm),
        record { buffered = h.buffered; on_disk = h' },
        named',
        refl,
        λ k.
            newest-moved k (SkipList.get_all_sorted t.buffer) apsss pss mids tss rest
              (merged sort pss) (finds k) (free k),
      )
