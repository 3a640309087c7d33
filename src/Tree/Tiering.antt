-- ===== src/Tree/Tiering.antt =====
-- `perform_compaction` on a tiering level: its runs are merged into a new run of the next level.
use cs.Prelude.{
  ℕ, suc, ◌+◌, ◌≡◌, ◌<◌, refl, ap, ◌∙◌, List, [], ◌∷◌, ◌++◌, some, true, false, arith, length,
  length-append, leb, is_empty, get_elem?, ◌==◌,
}
use cs.Result.{Result, ok}
use cs.Pair.{KeyValuePair}
use cs.Double.{Doubles}
use cs.Bloom.{optimal_bits}
use cs.SkipList
use cs.Compaction.Sorting.{IsSort}
use cs.Store.{Store}
use cs.Run.{Run, data_filename}
use cs.Run.Create.{IsAllowed}
use cs.Level
use cs.Level.{Level, tiering, tiering_threshold, is_due}
use cs.Tree.{LsmTree, TreeAction, calculate_fpr_for_level, continue}
use cs.Tree.Compact.{
  compact_if_due, move_down, tier_down, by_strategy, extend_if_used, compact_tiering,
  perform_compaction,
}
use cs.Tree.Holds.{RunsHold, TreeHolds, newest, newest_of_levels}
use cs.Tree.Names.{LevelsNamed}
use cs.Tree.Merge.{merged, concat, lookup-merged, merged_nonempty, perform_compaction_level}
use cs.Tree.Splits.{LevelsHold-split, get_elem?-behind}
use cs.Tree.Moves.{cleared, moved}
use cs.Tree.Preserved.{Merges, newest-moved}
use cs.Tree.Moved.{move_down-Holds}

module _ (d : Doubles) (sort : List KeyValuePair → List KeyValuePair) (fuel : ℕ) (t : LsmTree)
    (above : List Level) (l m : Level) (deeper : List Level)
    (apsss : List (List (List KeyValuePair))) (pss tss : List (List KeyValuePair))
    (rest : List (List (List KeyValuePair))) where
  abbrev before : LsmTree
  before = record t { levels = above ++ l ∷ m ∷ deeper }

  abbrev next : ℕ → TreeAction (Unit {0})
  next = perform_compaction d sort fuel

  tier_down_lem :
      (ps : List KeyValuePair) (after : Result (Unit {0}) × LsmTree)
      → is_empty ps ≡ false
      → move_down d sort next ps (length above) (length above + 1) (length m.runs) before ≡ after
      → tier_down d sort next ps (length above) before ≡ after
  unfolding Level.run_count
  tier_down_lem ps after left moves = rw (get_elem?-behind above 1 (l ∷ m ∷ deeper), left) moves

  compact_tiering_lem :
      (ps : List KeyValuePair) (after : Result (Unit {0}) × LsmTree)
      → leb tiering_threshold (length l.runs) ≡ true
      → tier_down d sort next ps (length above) before ≡ after
      → compact_tiering d sort next ps (length above) (length l.runs) before
        ≡ continue after (λ _. extend_if_used d sort (length above + 1))
  unfolding compact_tiering
  compact_tiering_lem ps after full moves = rw (full, moves)

  -- What is left to do once the merged pairs are moved.
  tier_lem :
      (after : Result (Unit {0}) × LsmTree)
      → t.compaction_enabled ≡ true
      → l.strategy ≡ tiering
      → leb tiering_threshold (length l.runs) ≡ true
      → RunsHold t.store l.runs pss
      → is_empty (concat pss) ≡ false
      → is_empty (merged sort pss) ≡ false
      → move_down d sort next
          (merged sort pss)
          (length above)
          (length above + 1)
          (length m.runs)
          before
        ≡ after
      → perform_compaction d sort (suc fuel) (length above) before
        ≡ continue after (λ _. extend_if_used d sort (length above + 1))
  tier_lem after on tiers full h some_pairs left moves =
      perform_compaction_level d sort fuel before above l (m ∷ deeper) pss refl on h some_pairs
      ∙ ap
          (λ st. by_strategy d sort next st (merged sort pss) (length above) (length l.runs) before)
          tiers
      ∙ compact_tiering_lem (merged sort pss) after full
          (tier_down_lem (merged sort pss) after left moves)

  -- The merged pairs are in the next level, whatever that level does then.
  pub tier-Holds :
      length apsss ≡ length above
      → IsSort sort
      → t.compaction_enabled ≡ true
      → l.strategy ≡ tiering
      → leb tiering_threshold (length l.runs) ≡ true
      → TreeHolds (record t { levels = above ++ l ∷ m ∷ deeper }) (apsss ++ pss ∷ tss ∷ rest)
      → LevelsNamed 0 (above ++ l ∷ m ∷ deeper)
      → is_empty (merged sort pss) ≡ false
      → 0
        < optimal_bits d
            (length (merged sort pss))
            (calculate_fpr_for_level d t.max_level (length above + 1))
      → IsAllowed t.store (data_filename (length above + 1) (length m.runs))
      → (r : Run) × (s : Store) × (perform_compaction d sort
            (suc fuel)
            (length above)
            (record t { levels = above ++ l ∷ m ∷ deeper })
          ≡ continue
              (compact_if_due d sort
                (perform_compaction d sort fuel)
                (length above + 1)
                (record t { levels = above ++ cleared l ∷ Level.add_run m r ∷ deeper; store = s }))
              (λ _. extend_if_used d sort (length above + 1)))
        × TreeHolds
            (record t { levels = above ++ cleared l ∷ Level.add_run m r ∷ deeper; store = s })
            (apsss ++ [] ∷ (tss ++ merged sort pss ∷ []) ∷ rest)
        × LevelsNamed 0 (above ++ cleared l ∷ Level.add_run m r ∷ deeper)
        × (s.writable ≡ t.store.writable)
        × ((k : ℕ)
            → Merges k (SkipList.get_all_sorted t.buffer) apsss pss (tss ∷ rest) (
                newest k
                  (SkipList.get_all_sorted t.buffer)
                  (apsss ++ [] ∷ (tss ++ merged sort pss ∷ []) ∷ rest)))
  unfolding moved newest_of_levels
  tier-Holds e std on tiers full h named left bits allowed =
      let (h₀, h₁) =
        LevelsHold-split t.store above (l ∷ m ∷ deeper) apsss (pss ∷ tss ∷ rest) e h.on_disk in
      let (fits, ascends, finds) = lookup-merged sort t.store l.runs pss std h₁.0 in
      let (r, s, moves, h', named', rights) =
        move_down-Holds d sort next t above l [] m deeper apsss pss [] tss rest (merged sort pss) e
          refl h.on_disk named left fits ascends bits allowed in
      (
        r,
        s,
        tier_lem _ on tiers full h₁.0 (merged_nonempty sort t.store l.runs pss std h₁.0 left) left
            moves,
        record { buffered = h.buffered; on_disk = h' },
        named',
        rights,
        λ k.
            newest-moved k (SkipList.get_all_sorted t.buffer) apsss pss [] tss rest
              (merged sort pss) (finds k) refl,
      )

  pub calm_lem :
      (r : Run) (after : LsmTree)
      → after.levels ≡ above ++ cleared l ∷ Level.add_run m r ∷ deeper
      → is_due m.strategy (length m.runs + 1) ≡ false
      → ((length above + 1) == after.max_level) ≡ false
      → continue
          (compact_if_due d sort next (length above + 1) after)
          (λ _. extend_if_used d sort (length above + 1))
        ≡ (ok tt, after)
  unfolding extend_if_used Level.needs_compaction Level.add_run
  calm_lem r after e calm inner =
      let there : get_elem? after.levels (length above + 1) ≡ some (Level.add_run m r) =
        ap (λ ls. get_elem? ls (length above + 1)) e
        ∙ get_elem?-behind above 1 (cleared l ∷ Level.add_run m r ∷ deeper) in
      let longer : length (m.runs ++ r ∷ []) ≡ length m.runs + 1 =
        omega (arith, length-append m.runs (r ∷ [])) in
      rw (there, longer, calm, inner)

  -- A compaction of a tiering level with enough runs, where the next level is not due after it and is
  -- not max_level: for a sort that meets the contract of `std::sort` and on a well-formed tree whose runs are named after their
  -- places, where some pair is left after the merge, the filter of the new run has bits and its files
  -- may be created, it succeeds, empties the level, puts the merged pairs behind the runs of
  -- the next level and keeps the tree well formed; every key has its newest value, but a key that the
  -- merged runs hold with several values may have another one of these, and a key whose value of the level
  -- marks a deletion has what the deeper levels hold for it.
  pub perform_compaction-tiering :
      length apsss ≡ length above
      → IsSort sort
      → t.compaction_enabled ≡ true
      → l.strategy ≡ tiering
      → leb tiering_threshold (length l.runs) ≡ true
      → TreeHolds (record t { levels = above ++ l ∷ m ∷ deeper }) (apsss ++ pss ∷ tss ∷ rest)
      → LevelsNamed 0 (above ++ l ∷ m ∷ deeper)
      → is_empty (merged sort pss) ≡ false
      → 0
        < optimal_bits d
            (length (merged sort pss))
            (calculate_fpr_for_level d t.max_level (length above + 1))
      → IsAllowed t.store (data_filename (length above + 1) (length m.runs))
      → is_due m.strategy (length m.runs + 1) ≡ false
      → ((length above + 1) == t.max_level) ≡ false
      → (t' : LsmTree) × (perform_compaction d sort
            (suc fuel)
            (length above)
            (record t { levels = above ++ l ∷ m ∷ deeper })
          ≡ (ok tt, t'))
        × TreeHolds t' (apsss ++ [] ∷ (tss ++ merged sort pss ∷ []) ∷ rest)
        × LevelsNamed 0 t'.levels
        × (t'.buffer ≡ t.buffer)
        × ((k : ℕ)
            → Merges k (SkipList.get_all_sorted t.buffer) apsss pss (tss ∷ rest) (
                newest k
                  (SkipList.get_all_sorted t'.buffer)
                  (apsss ++ [] ∷ (tss ++ merged sort pss ∷ []) ∷ rest)))
  perform_compaction-tiering e std on tiers full h named left bits allowed calm inner =
      let (r, s, run, h', named', rights, map) =
        tier-Holds e std on tiers full h named left bits allowed in
      let after : LsmTree = record t {
        levels = above ++ cleared l ∷ Level.add_run m r ∷ deeper;
        store = s;
      } in
      (after, run ∙ calm_lem r after refl calm inner, h', named', refl, map)
