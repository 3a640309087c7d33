-- ===== src/Tree/FlushKeeps.antt =====
-- What a flush keeps, with the merges of the levels 1 and 2 that it starts.
use cs.Prelude.{
  ℕ, suc, ◌+◌, ◌*◌, ◌≡◌, ◌⊎◌, ◌<◌, inl, inr, refl, ap, ◌∙◌, List, [], ◌∷◌, ◌++◌, true, false,
  Option, length, ltb, leb, is_empty, ◌==◌,
}
use cs.Result.{ok}
use cs.Pair.{KeyValuePair, Fits}
use cs.Double.{Doubles}
use cs.Bloom.{optimal_bits}
use cs.SkipList
use cs.SkipList.Contents.{empty-IsValid}
use cs.Compaction.Sorting.{IsSort}
use cs.Store.{Store}
use cs.Run.{Run, data_filename, pair_size}
use cs.Run.Create.{IsAllowed}
use cs.Run.Rights.{IsAllowed-rights}
use cs.Level
use cs.Level.{Level, tiering, tiering_threshold, is_due}
use cs.Tree.{LsmTree, calculate_fpr_for_level, get_target_level_for_size, continue}
use cs.Tree.Compact.{flush_buffer, perform_compaction, compact_if_due, extend_if_used}
use cs.Tree.Holds.{TreeHolds, newest}
use cs.Tree.Names.{LevelsNamed}
use cs.Tree.Merge.{merged}
use cs.Tree.Moves.{cleared}
use cs.Tree.Tiering.{calm_lem}
use cs.Tree.Leveling.{IsLeveling, perform_compaction-in_place}
use cs.Tree.Preserved.{Preserved, Varies, Preserved-trans, Merges, Merges-Preserved}
use cs.Tree.FlushMerges
use cs.Tree.FlushMerges.{flush_tiered, length-snoc}

-- Level 2, with the runs that hold `pss`, is due and its merged pairs fit in it.
pub record MergesInPlace (d : Doubles) (sort : List KeyValuePair → List KeyValuePair) (t : LsmTree)
    (second : Level) (pss : List (List KeyValuePair)) : Type 0 where
  pub due : is_due second.strategy (length second.runs + 1) ≡ true
  pub levels : IsLeveling second.strategy
  pub left : is_empty (merged sort pss) ≡ false
  pub small : ltb 2 (get_target_level_for_size d t (length (merged sort pss) * pair_size)) ≡ false
  pub bits : 0 < optimal_bits d (length (merged sort pss)) (calculate_fpr_for_level d t.max_level 2)
  pub allowed : IsAllowed t.store (data_filename 2 0)

module _ (d : Doubles) (sort : List KeyValuePair → List KeyValuePair) (t : LsmTree)
    (top first second : Level) (deeper : List Level) (pss tss : List (List KeyValuePair))
    (rest : List (List (List KeyValuePair))) where
  abbrev full : List (List KeyValuePair)
  full = FlushMerges.full d sort t top first second deeper pss tss rest

  abbrev second_full : List (List KeyValuePair)
  second_full = FlushMerges.second_full d sort t top first second deeper pss tss rest

  abbrev tiered : Run → Run → Store → LsmTree
  tiered = FlushMerges.tiered d sort t top first second deeper pss tss rest

  abbrev map_before : ℕ → Option ℕ
  map_before = FlushMerges.map_before d sort t top first second deeper pss tss rest

  in_place_run :
      (r r' : Run) (s : Store) (t' : LsmTree)
      → is_due second.strategy (length second.runs + 1) ≡ true
      → (2 == t'.max_level) ≡ false
      → perform_compaction d sort (suc (suc (length deeper))) 2 (tiered r r' s) ≡ (ok tt, t')
      → continue
          (compact_if_due d sort
            (perform_compaction d sort (suc (suc (length deeper))))
            2
            (tiered r r' s))
          (λ _. extend_if_used d sort 2)
        ≡ (ok tt, t')
  unfolding Level.add_run Level.needs_compaction extend_if_used
  in_place_run r r' s t' due inner e =
      rw (length-snoc d sort t top first second deeper pss tss rest second.runs r', due, e, inner)

  in_place_Preserved :
      (k : ℕ) (buffered : List KeyValuePair)
      → is_due second.strategy (length second.runs + 1) ≡ true
      → buffered ≡ []
      → Merges k []
          ([] ∷ [] ∷ [])
          second_full
          rest
          (newest k buffered ([] ∷ [] ∷ (merged sort second_full ∷ []) ∷ rest))
      → Preserved
          (Varies second sort k full tss)
          (map_before k)
          (newest k [] ([] ∷ [] ∷ second_full ∷ rest))
      → Preserved
          (Varies second sort k full tss)
          (map_before k)
          (newest k buffered ([] ∷ [] ∷ (merged sort second_full ∷ []) ∷ rest))
  in_place_Preserved k buffered due e map p =
      Preserved-trans (map_before k) (newest k [] ([] ∷ [] ∷ second_full ∷ rest)) _ p (
        Merges-Preserved k [] ([] ∷ [] ∷ []) second_full rest _ (λ several. inr (due, several)) map)

  -- A flush after which level 1, a tiering level, has enough runs to be merged: for a sort that meets the contract of `std::sort`, on a
  -- well-formed tree with an empty level 0 and runs named after their places, where the buffer is not
  -- empty, compaction is on, some pair is left after the merge, level 2 is not max_level and either is
  -- not due after it or can merge its own runs in place, the new runs may be created and
  -- their filters have bits, it succeeds and leaves a well-formed tree with empty buffer and an empty
  -- level 1; every key keeps its newest value, or has none where it had none, but for keys whose
  -- newest value is the deletion mark and keys that the runs that are merged, of level 1 or of a level 2 that is
  -- due, hold with several values.
  pub flush_buffer-Preserved :
      IsSort sort
      → t.compaction_enabled ≡ true
      → first.strategy ≡ tiering
      → leb tiering_threshold (length first.runs + 1) ≡ true
      → TreeHolds (record t { levels = top ∷ first ∷ second ∷ deeper }) ([] ∷ pss ∷ tss ∷ rest)
      → LevelsNamed 0 (top ∷ first ∷ second ∷ deeper)
      → (t.buffer.num_elements == 0) ≡ false
      → Fits (SkipList.get_all_sorted t.buffer)
      → 0
        < optimal_bits d
            (length (SkipList.get_all_sorted t.buffer))
            (calculate_fpr_for_level d t.max_level 1)
      → IsAllowed t.store (data_filename 1 (length first.runs))
      → is_empty (merged sort (pss ++ SkipList.get_all_sorted t.buffer ∷ [])) ≡ false
      → 0
        < optimal_bits d
            (length (merged sort (pss ++ SkipList.get_all_sorted t.buffer ∷ [])))
            (calculate_fpr_for_level d t.max_level 2)
      → IsAllowed t.store (data_filename 2 (length second.runs))
      → (2 == t.max_level) ≡ false
      → (is_due second.strategy (length second.runs + 1) ≡ false)
        ⊎ MergesInPlace d sort t second
            (tss ++ merged sort (pss ++ SkipList.get_all_sorted t.buffer ∷ []) ∷ [])
      → (t' : LsmTree) × (runs : List (List KeyValuePair)) × (flush_buffer d sort
            (record t { levels = top ∷ first ∷ second ∷ deeper })
          ≡ (ok tt, t'))
        × TreeHolds t' ([] ∷ [] ∷ runs ∷ rest)
        × LevelsNamed 0 t'.levels
        × (SkipList.get_all_sorted t'.buffer ≡ [])
        × ((k : ℕ)
            → Preserved
                (Varies second sort k (pss ++ SkipList.get_all_sorted t.buffer ∷ []) tss)
                (newest k (SkipList.get_all_sorted t.buffer) ([] ∷ pss ∷ tss ∷ rest))
                (newest k (SkipList.get_all_sorted t'.buffer) ([] ∷ [] ∷ runs ∷ rest)))
  unfolding Level.add_run get_target_level_for_size
  flush_buffer-Preserved std on tiers enough h named some_pairs fits bits allowed left bits'
        allowed' inner (inl calm) =
      let (r, r', s, run, h', named', rights, map) =
        flush_tiered d sort t top first second deeper pss tss rest std on tiers enough h named
          some_pairs fits bits allowed left bits' allowed' in
      let settled =
        calm_lem d sort (suc (suc (length deeper))) t (top ∷ []) (Level.add_run first r) second
          deeper ([] ∷ []) full tss rest r' (tiered r r' s) refl calm inner in
      (
        tiered r r' s,
        second_full,
        run ∙ settled,
        h',
        named',
        empty-IsValid.1,
        λ k.
            Preserved-trans (map_before k) _ _ (map k)
              (inr (inl (ap (λ ps. newest k ps ([] ∷ [] ∷ second_full ∷ rest)) empty-IsValid.1))),
      )
  flush_buffer-Preserved std on tiers enough h named some_pairs fits bits allowed left bits'
        allowed' inner (inr x) =
      let (r, r', s, run, h', named', rights, map) =
        flush_tiered d sort t top first second deeper pss tss rest std on tiers enough h named
          some_pairs fits bits allowed left bits' allowed' in
      let (t', merges, h'', named'', same, height, map') =
        perform_compaction-in_place d sort (suc (length deeper)) (tiered r r' s)
          (top ∷ cleared (Level.add_run first r) ∷ []) (Level.add_run second r') deeper
          ([] ∷ [] ∷ []) second_full rest refl std on x.levels h' named' x.left x.small x.bits
          (IsAllowed-rights t.store s (data_filename 2 0) rights x.allowed) inner in
      let drained = ap SkipList.get_all_sorted same ∙ empty-IsValid.1 in
      let inner' : (2 == t'.max_level) ≡ false = rw height inner in
      (
        t',
        merged sort second_full ∷ [],
        run ∙ in_place_run r r' s t' x.due inner' merges,
        h'',
        named'',
        drained,
        λ k.
            in_place_Preserved k (SkipList.get_all_sorted t'.buffer) x.due drained
              (rw empty-IsValid.1 at (map' k)) (map k),
      )
