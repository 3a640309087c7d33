-- ===== src/Tree/FlushMerges.antt =====
-- `flush_buffer`, where the new run makes level 1 full: the runs of level 1 are merged into level 2, and
-- those of level 2 into one where that makes level 2 full.
use cs.Prelude.{
  ℕ, suc, ◌+◌, ◌≡◌, ◌<◌, inl, inr, refl, sym, ap, ◌∙◌, List, [], ◌∷◌, ◌++◌, true, false, arith,
  Option, length, length-append, leb, is_empty, ◌==◌,
}
use cs.Result.{ok}
use cs.Pair.{KeyValuePair, Fits}
use cs.Double.{Doubles}
use cs.Bloom.{optimal_bits}
use cs.SkipList
use cs.SkipList.Contents.{get_all_sorted-Ascends, empty-IsValid, is_empty-contents}
use cs.Compaction.Sorting.{IsSort}
use cs.Store.{Store}
use cs.Run
use cs.Run.{Run, data_filename, pair_size}
use cs.Run.Create.{IsAllowed, create-Holds}
use cs.Run.Rights.{create-writable, IsAllowed-rights}
use cs.Level
use cs.Level.{Level, tiering, tiering_threshold, is_due}
use cs.Tree.{LsmTree, calculate_fpr_for_level, continue}
use cs.Tree.Compact.{
  flush_buffer, perform_compaction, compact_if_due, compact_if_enabled, extend_if_used,
}
use cs.Tree.Holds.{TreeHolds, newest}
use cs.Tree.Names.{LevelsNamed}
use cs.Tree.Flush.{flushed, flushed-LevelsHold, flushed-LevelsNamed, flushed-newest}
use cs.Tree.Merge.{merged}
use cs.Tree.Moves.{cleared}
use cs.Tree.Tiering.{tier-Holds}
use cs.Tree.Preserved.{Preserved, Varies, Preserved-trans, Merges, Merges-Preserved}

module _ (d : Doubles) (sort : List KeyValuePair → List KeyValuePair) (t : LsmTree)
    (top first second : Level) (deeper : List Level) (pss tss : List (List KeyValuePair))
    (rest : List (List (List KeyValuePair))) where
  abbrev tree : LsmTree
  tree = record t { levels = top ∷ first ∷ second ∷ deeper }

  abbrev pub pairs : List KeyValuePair
  pairs = SkipList.get_all_sorted t.buffer

  -- The runs of level 1 with the new one.
  abbrev pub full : List (List KeyValuePair)
  full = pss ++ pairs ∷ []

  -- The runs of level 2 with the merged one.
  abbrev pub second_full : List (List KeyValuePair)
  second_full = tss ++ merged sort full ∷ []

  abbrev after_flush : Run → Store → LsmTree
  after_flush r s = flushed d sort t top first (second ∷ deeper) pss (tss ∷ rest) r s

  pub length-snoc : (rs : List Run) (r : Run) → length (rs ++ r ∷ []) ≡ length rs + 1
  length-snoc rs r = omega (arith, length-append rs (r ∷ []))

  flush_written :
      (r : Run) (s : Store)
      → (t.buffer.num_elements == 0) ≡ false
      → Run.create d pairs 1 (length first.runs) (calculate_fpr_for_level d t.max_level 1) t.store
        ≡ (ok r, s)
      → flush_buffer d sort tree ≡ compact_if_enabled d sort (after_flush r s)
  unfolding flush_buffer flushed Level.run_count
  flush_written r s some_pairs e = rw (some_pairs, e) refl

  compact_due :
      (r : Run) (s : Store)
      → t.compaction_enabled ≡ true
      → is_due first.strategy (length first.runs + 1) ≡ true
      → compact_if_enabled d sort (after_flush r s)
        ≡ perform_compaction d sort (suc (suc (suc (length deeper)))) 1 (after_flush r s)
  unfolding flushed Level.add_run Level.needs_compaction
  compact_due r s on due =
      let longer : length (first.runs ++ r ∷ []) ≡ length first.runs + 1 =
        omega (arith, length-append first.runs (r ∷ [])) in
      rw (longer, due, on) refl

  -- The tree once both levels are written.
  abbrev pub tiered : Run → Run → Store → LsmTree
  tiered r r' s = record t {
    buffer = SkipList.empty;
    levels = top ∷ cleared (Level.add_run first r) ∷ Level.add_run second r' ∷ deeper;
    store = s;
  }

  abbrev pub map_before : ℕ → Option ℕ
  map_before k = newest k pairs ([] ∷ pss ∷ tss ∷ rest)

  flush-Preserved :
      (k : ℕ) (buffered : List KeyValuePair)
      → buffered ≡ []
      → Merges k buffered
          ([] ∷ [])
          full
          (tss ∷ rest)
          (newest k buffered ([] ∷ [] ∷ second_full ∷ rest))
      → Preserved
          (Varies second sort k full tss)
          (map_before k)
          (newest k [] ([] ∷ [] ∷ second_full ∷ rest))
  flush-Preserved k buffered e map =
      Preserved-trans (map_before k) (newest k [] ([] ∷ full ∷ tss ∷ rest)) _
        (inr (inl (flushed-newest d sort t top first (second ∷ deeper) pss (tss ∷ rest) k)))
        (Merges-Preserved k [] ([] ∷ []) full (tss ∷ rest) _ (λ several. inl several) (rw e at map))

  pub flush_tiered :
      IsSort sort
      → t.compaction_enabled ≡ true
      → first.strategy ≡ tiering
      → leb tiering_threshold (length first.runs + 1) ≡ true
      → TreeHolds (record t { levels = top ∷ first ∷ second ∷ deeper }) ([] ∷ pss ∷ tss ∷ rest)
      → LevelsNamed 0 (top ∷ first ∷ second ∷ deeper)
      → (t.buffer.num_elements == 0) ≡ false
      → Fits pairs
      → 0 < optimal_bits d (length pairs) (calculate_fpr_for_level d t.max_level 1)
      → IsAllowed t.store (data_filename 1 (length first.runs))
      → is_empty (merged sort full) ≡ false
      → 0 < optimal_bits d (length (merged sort full)) (calculate_fpr_for_level d t.max_level 2)
      → IsAllowed t.store (data_filename 2 (length second.runs))
      → (r r' : Run) × (s : Store) × (flush_buffer d sort tree
          ≡ continue
              (compact_if_due d sort
                (perform_compaction d sort (suc (suc (length deeper))))
                2
                (tiered r r' s))
              (λ _. extend_if_used d sort 2))
        × TreeHolds (tiered r r' s) ([] ∷ [] ∷ second_full ∷ rest)
        × LevelsNamed 0 (tiered r r' s).levels
        × (s.writable ≡ t.store.writable)
        × ((k : ℕ)
            → Preserved
                (Varies second sort k full tss)
                (map_before k)
                (newest k [] ([] ∷ [] ∷ second_full ∷ rest)))
  unfolding flushed Level.add_run
  flush_tiered std on tiers enough h named some_pairs fits bits allowed left bits' allowed' =
      let place = length first.runs in
      let fpr = calculate_fpr_for_level d t.max_level 1 in
      let (r, s, made, x, own_name, only, w) =
        create-Holds d pairs 1 place fpr t.store
          (is_empty-contents t.buffer h.buffered ∙ some_pairs) fits
          (get_all_sorted-Ascends t.buffer h.buffered) bits allowed in
      let rights : s.writable ≡ t.store.writable =
        ap (λ y. y.1.writable) (sym made) ∙ create-writable d pairs 1 place fpr t.store in
      let due = ap (λ st. is_due st (place + 1)) tiers ∙ enough in
      let longer : leb tiering_threshold (length (first.runs ++ r ∷ [])) ≡ true =
        ap (λ n. leb tiering_threshold n) (length-snoc first.runs r) ∙ enough in
      let (r', s', run, h', named', rights', map) =
        tier-Holds d sort (suc (suc (length deeper)))
          (record t { buffer = SkipList.empty; store = s }) (top ∷ []) (Level.add_run first r)
          second deeper ([] ∷ []) full tss rest refl std on tiers longer
          (record {
            buffered = empty-IsValid.0;
            on_disk =
                flushed-LevelsHold d sort t top first (second ∷ deeper) pss (tss ∷ rest) r s
                  h.on_disk named x only;
          })
          (flushed-LevelsNamed d sort t top first (second ∷ deeper) pss (tss ∷ rest) r named
            own_name)
          left bits'
          (IsAllowed-rights t.store s (data_filename 2 (length second.runs)) rights allowed') in
      (
        r,
        r',
        s',
        flush_written r s some_pairs made ∙ compact_due r s on due ∙ run,
        h',
        named',
        rights' ∙ rights,
        λ k. flush-Preserved k (SkipList.get_all_sorted SkipList.empty) empty-IsValid.1 (map k),
      )
