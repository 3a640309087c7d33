-- ===== src/Tree/FullMerges.antt =====
-- `put` when it fills the buffer and the flush makes level 1 full.
use cs.Prelude.{
  ℕ, ◌+◌, ◌≡◌, ◌⊎◌, inl, inr, ◌<◌, sym, ◌∙◌, List, [], ◌∷◌, ◌++◌, some, true, false, ◌==◌, arith,
  length, is_empty, leb, if◌then◌else◌,
}
use cs.Result.{ok}
use cs.Pair.{KeyValuePair, Fits, lookup}
use cs.Double.{Doubles}
use cs.Bloom.{optimal_bits}
use cs.SkipList
use cs.SkipList.{SkipList, is_full}
use cs.SkipList.Contents.{is_empty-contents}
use cs.SkipList.Insert.{insert-IsInsertion}
use cs.Compaction.Sorting.{IsSort}
use cs.Run.{data_filename}
use cs.Run.Create.{IsAllowed}
use cs.Level.{Level, is_due, tiering, tiering_threshold}
use cs.Tree.{LsmTree, calculate_fpr_for_level, get_target_level_for_size}
use cs.Tree.Access.{put}
use cs.Tree.Holds.{TreeHolds, newest}
use cs.Tree.Names.{LevelsNamed}
use cs.Tree.Full.{is_empty-lookup}
use cs.Tree.Merge.{merged}
use cs.Tree.FlushKeeps.{MergesInPlace, flush_buffer-Preserved}
use cs.Tree.Preserved.{Preserved, Varies, Preserved-trans}

module _ (d : Doubles) (sort : List KeyValuePair → List KeyValuePair) (t : LsmTree)
    (top first second : Level) (deeper : List Level) (pss tss : List (List KeyValuePair))
    (rest : List (List (List KeyValuePair))) (key value draw : ℕ) where
  abbrev inserted : SkipList
  inserted = SkipList.insert t.buffer key value draw

  with_buffer :
      (pss' : List (List KeyValuePair))
      → MergesInPlace d sort t second pss'
      → MergesInPlace d sort (record t { buffer = inserted; locked = true }) second pss'
  unfolding get_target_level_for_size
  with_buffer pss' x = record {
    due = x.due;
    levels = x.levels;
    left = x.left;
    small = x.small;
    bits = x.bits;
    allowed = x.allowed;
  }

  with_room :
      (pss' : List (List KeyValuePair))
      → (is_due second.strategy (length second.runs + 1) ≡ false)
        ⊎ MergesInPlace d sort t second pss'
      → (is_due second.strategy (length second.runs + 1) ≡ false)
        ⊎ MergesInPlace d sort (record t { buffer = inserted; locked = true }) second pss'
  with_room pss' (inl calm) = inl calm
  with_room pss' (inr x) = inr (with_buffer pss' x)

  -- A `put` that fills the buffer, where the flush makes level 1 full: under the conditions under which
  -- such a flush keeps the newest values, it succeeds, leaves a well-formed tree with an empty buffer and
  -- an empty level 1, and its key has the new value and every other key the one that it had (or none
  -- where it had none), but for keys whose newest value after the insertion is the deletion mark and keys that
  -- the runs that are merged, of level 1 or of a level 2 that is due, hold with several values.
  pub put-Preserved :
      IsSort sort
      → t.compaction_enabled ≡ true
      → first.strategy ≡ tiering
      → leb tiering_threshold (length first.runs + 1) ≡ true
      → TreeHolds (record t { levels = top ∷ first ∷ second ∷ deeper }) ([] ∷ pss ∷ tss ∷ rest)
      → LevelsNamed 0 (top ∷ first ∷ second ∷ deeper)
      → is_full t.buffer_size_bytes (SkipList.insert t.buffer key value draw) ≡ true
      → Fits (SkipList.get_all_sorted (SkipList.insert t.buffer key value draw))
      → 0
        < optimal_bits d
            (length (SkipList.get_all_sorted (SkipList.insert t.buffer key value draw)))
            (calculate_fpr_for_level d t.max_level 1)
      → IsAllowed t.store (data_filename 1 (length first.runs))
      → is_empty (
          merged sort
            (pss ++ SkipList.get_all_sorted (SkipList.insert t.buffer key value draw) ∷ []))
        ≡ false
      → 0
        < optimal_bits d
            (length (
              merged sort
                (pss ++ SkipList.get_all_sorted (SkipList.insert t.buffer key value draw) ∷ [])))
            (calculate_fpr_for_level d t.max_level 2)
      → IsAllowed t.store (data_filename 2 (length second.runs))
      → (2 == t.max_level) ≡ false
      → (is_due second.strategy (length second.runs + 1) ≡ false)
        ⊎ MergesInPlace d sort t second (
            tss
            ++ merged sort
                (pss ++ SkipList.get_all_sorted (SkipList.insert t.buffer key value draw) ∷ [])
              ∷ [])
      → (t' : LsmTree) × (runs : List (List KeyValuePair)) × (put d sort key value draw
            (record t { levels = top ∷ first ∷ second ∷ deeper })
          ≡ (ok tt, t'))
        × TreeHolds t' ([] ∷ [] ∷ runs ∷ rest)
        × LevelsNamed 0 t'.levels
        × (SkipList.get_all_sorted t'.buffer ≡ [])
        × ((k : ℕ)
            → Preserved
                (Varies second sort k
                  (pss ++ SkipList.get_all_sorted (SkipList.insert t.buffer key value draw) ∷ [])
                  tss)
                (if key == k
                  then some value
                  else newest k (SkipList.get_all_sorted t.buffer) ([] ∷ pss ∷ tss ∷ rest))
                (newest k (SkipList.get_all_sorted t'.buffer) ([] ∷ [] ∷ runs ∷ rest)))
  unfolding put newest
  put-Preserved std on tiers enough h named full fits bits allowed left bits' allowed' inner room =
      let x = insert-IsInsertion t.buffer key value draw h.buffered in
      let hit : lookup key (SkipList.get_all_sorted inserted) ≡ some value =
        ground (arith, x.reads key) in
      let some_pairs : (inserted.num_elements == 0) ≡ false =
        sym (is_empty-contents inserted x.valid)
        ∙ is_empty-lookup key value (SkipList.get_all_sorted inserted) hit in
      let (t', runs, e, h', named', drained, f) =
        flush_buffer-Preserved d sort (record t { buffer = inserted; locked = true }) top first
          second deeper pss tss rest std on tiers enough
          (record { buffered = x.valid; on_disk = h.on_disk }) named some_pairs fits bits allowed
          left bits' allowed' inner
          (with_room (tss ++ merged sort (pss ++ SkipList.get_all_sorted inserted ∷ []) ∷ [])
            room) in
      (
        record t' { write_count = t'.write_count + 1; locked = false },
        runs,
        rw (full, e),
        record { buffered = h'.buffered; on_disk = h'.on_disk },
        named',
        drained,
        λ k.
            let written : newest k (SkipList.get_all_sorted inserted) ([] ∷ pss ∷ tss ∷ rest) ≡ (
                if key == k
                then some value
                else newest k (SkipList.get_all_sorted t.buffer) ([] ∷ pss ∷ tss ∷ rest)) =
              ground (arith, x.reads k) in
            Preserved-trans _ (newest k (SkipList.get_all_sorted inserted) ([] ∷ pss ∷ tss ∷ rest))
              _ (inr (inl written)) (f k),
      )
