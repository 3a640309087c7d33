-- ===== src/Tree/Full.antt =====
-- `put` when it fills the buffer.
use cs.Prelude.{
  ℕ, ◌+◌, ◌≡◌, ◌⊎◌, ◌<◌, refl, sym, ◌∙◌, List, [], ◌∷◌, ◌++◌, some, true, false, ◌==◌, arith,
  length, is_empty, if◌then◌else◌,
}
use cs.Result.{ok}
use cs.Pair.{KeyValuePair, Fits, lookup}
use cs.Double.{Doubles}
use cs.Bloom.{optimal_bits}
use cs.SkipList
use cs.SkipList.{SkipList, is_full}
use cs.SkipList.Contents.{is_empty-contents}
use cs.SkipList.Insert.{insert-IsInsertion}
use cs.Run.{data_filename}
use cs.Run.Create.{IsAllowed}
use cs.Level.{Level, is_due}
use cs.Tree.{LsmTree, calculate_fpr_for_level}
use cs.Tree.Access.{put}
use cs.Tree.Flush.{flush_buffer-newest}
use cs.Tree.Holds.{TreeHolds, newest}
use cs.Tree.Names.{LevelsNamed}

pub is_empty-lookup :
    (k v : ℕ) (ps : List KeyValuePair) → lookup k ps ≡ some v → is_empty ps ≡ false
unfolding lookup
is_empty-lookup k v [] e = cc
is_empty-lookup k v (p ∷ ps) e = refl

module _ (d : Doubles) (sort : List KeyValuePair → List KeyValuePair) (t : LsmTree)
    (top first : Level) (deeper : List Level) (pss : List (List KeyValuePair))
    (psss : List (List (List KeyValuePair))) (key value draw : ℕ) where
  abbrev inserted : SkipList
  inserted = SkipList.insert t.buffer key value draw

  -- A `put` that fills the buffer flushes it, the new pair included. Under the conditions of a flush
  -- without compaction, it succeeds, the buffer becomes a new run of level 1, its key has the new
  -- value, and every other key the one that it had.
  pub put-newest :
      TreeHolds (record t { levels = top ∷ first ∷ deeper }) ([] ∷ pss ∷ psss)
      → LevelsNamed 0 (top ∷ first ∷ deeper)
      → is_full t.buffer_size_bytes (SkipList.insert t.buffer key value draw) ≡ true
      → Fits (SkipList.get_all_sorted (SkipList.insert t.buffer key value draw))
      → 0
        < optimal_bits d
            (length (SkipList.get_all_sorted (SkipList.insert t.buffer key value draw)))
            (calculate_fpr_for_level d t.max_level 1)
      → IsAllowed t.store (data_filename 1 (length first.runs))
      → (t.compaction_enabled ≡ false) ⊎ (is_due first.strategy (length first.runs + 1) ≡ false)
      → (t' : LsmTree) × (put d sort key value draw (record t { levels = top ∷ first ∷ deeper })
          ≡ (ok tt, t'))
        × TreeHolds t' (
            []
            ∷ (pss ++ SkipList.get_all_sorted (SkipList.insert t.buffer key value draw) ∷ [])
            ∷ psss)
        × LevelsNamed 0 t'.levels
        × (SkipList.get_all_sorted t'.buffer ≡ [])
        × ((k : ℕ)
            → newest k (SkipList.get_all_sorted t'.buffer) (
                []
                ∷ (pss ++ SkipList.get_all_sorted (SkipList.insert t.buffer key value draw) ∷ [])
                ∷ psss)
              ≡ (if key == k
                  then some value
                  else newest k (SkipList.get_all_sorted t.buffer) ([] ∷ pss ∷ psss)))
  unfolding put newest
  put-newest h named full fits bits allowed calm =
      let x = insert-IsInsertion t.buffer key value draw h.buffered in
      let hit : lookup key (SkipList.get_all_sorted inserted) ≡ some value =
        ground (arith, x.reads key) in
      let some_pairs : (inserted.num_elements == 0) ≡ false =
        sym (is_empty-contents inserted x.valid)
        ∙ is_empty-lookup key value (SkipList.get_all_sorted inserted) hit in
      let (t', e, h', named', drained, f) =
        flush_buffer-newest d sort (record t { buffer = inserted; locked = true }) top first deeper
          pss psss (record { buffered = x.valid; on_disk = h.on_disk }) named some_pairs fits bits
          allowed calm in
      (
        record t' { write_count = t'.write_count + 1; locked = false },
        rw (full, e),
        record { buffered = h'.buffered; on_disk = h'.on_disk },
        named',
        drained,
        λ k. f k ∙ ground (arith, x.reads k),
      )
