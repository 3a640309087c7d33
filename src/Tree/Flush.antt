-- ===== src/Tree/Flush.antt =====
-- `flush_buffer`, where no compaction follows.
use cs.Prelude.{
  ℕ, ◌+◌, ◌≡◌, ◌⊎◌, ◌<◌, inl, inr, ap, ◌∙◌, List, [], ◌∷◌, ◌++◌, false, ◌==◌, arith, length,
  length-append, Bool-cases,
}
use cs.Result.{ok}
use cs.Pair.{KeyValuePair, Fits, lookup}
use cs.Double.{Doubles}
use cs.Bloom.{optimal_bits}
use cs.SkipList
use cs.SkipList.Contents.{get_all_sorted-Ascends, empty-IsValid, is_empty-contents}
use cs.Store.{Store}
use cs.Run
use cs.Run.{Run, data_filename}
use cs.Run.Holds.{Holds}
use cs.Run.Create.{IsAllowed, OnlyFilesOf, create-Holds}
use cs.Level
use cs.Level.{Level, is_due}
use cs.Tree.{LsmTree, calculate_fpr_for_level}
use cs.Tree.Compact.{flush_buffer}
use cs.Tree.Holds.{LevelsHold, TreeHolds, newest}
use cs.Tree.Splits.{newest_of_runs-snoc}
use cs.Tree.Names.{LevelsNamed, RunsNamed-snoc, RunsHold-snoc, RunsHold-written, LevelsHold-written}

module _ (d : Doubles) (sort : List KeyValuePair → List KeyValuePair) (t : LsmTree)
    (top first : Level) (deeper : List Level) (pss : List (List KeyValuePair))
    (psss : List (List (List KeyValuePair))) where
  -- A tree with at least two levels.
  abbrev tree : LsmTree
  tree = record t { levels = top ∷ first ∷ deeper }

  abbrev pairs : List KeyValuePair
  pairs = SkipList.get_all_sorted t.buffer

  unfoldable pub flushed : Run → Store → LsmTree
  flushed r s = record t {
    buffer = SkipList.empty;
    levels = top ∷ Level.add_run first r ∷ deeper;
    store = s;
  }

  pub flushed-LevelsHold :
      (r : Run) (s : Store)
      → LevelsHold t.store (top ∷ first ∷ deeper) ([] ∷ pss ∷ psss)
      → LevelsNamed 0 (top ∷ first ∷ deeper)
      → Holds s r pairs
      → OnlyFilesOf (data_filename 1 (length first.runs)) t.store s
      → LevelsHold s (top ∷ Level.add_run first r ∷ deeper) ([] ∷ (pss ++ pairs ∷ []) ∷ psss)
  unfolding Level.add_run
  flushed-LevelsHold r s h named x only =
      let place = length first.runs in
      (
        RunsHold-written t.store s 1 place only 0 0 top.runs [] named.0
            (λ k a b same. absurd (omega (arith, same.0))) h.0,
        (
          RunsHold-snoc s first.runs pss r pairs
              (RunsHold-written t.store s 1 place only 1 0 first.runs pss named.1.0
                (λ k a b same. absurd (omega (arith, same.1))) h.1.0)
              x,
          LevelsHold-written t.store s 1 place only 2 deeper psss (omega arith) named.1.1 h.1.1,
        ),
      )

  pub flushed-LevelsNamed :
      (r : Run)
      → LevelsNamed 0 (top ∷ first ∷ deeper)
      → r.filename ≡ data_filename 1 (length first.runs)
      → LevelsNamed 0 (top ∷ Level.add_run first r ∷ deeper)
  unfolding Level.add_run
  flushed-LevelsNamed r named e =
      let z : length first.runs ≡ 0 + length first.runs = omega arith in
      (named.0, (RunsNamed-snoc 1 0 first.runs r named.1.0 (e ∙ ap (data_filename 1) z), named.1.1))

  pub flushed-newest :
      (k : ℕ) → newest k [] ([] ∷ (pss ++ pairs ∷ []) ∷ psss) ≡ newest k pairs ([] ∷ pss ∷ psss)
  unfolding newest lookup
  flushed-newest k = ground (arith, newest_of_runs-snoc k pss pairs)

  flush_runs :
      (r : Run) (s : Store)
      → (t.buffer.num_elements == 0) ≡ false
      → Run.create d pairs 1 (length first.runs) (calculate_fpr_for_level d t.max_level 1) t.store
        ≡ (ok r, s)
      → (t.compaction_enabled ≡ false) ⊎ (is_due first.strategy (length first.runs + 1) ≡ false)
      → flush_buffer d sort tree ≡ (ok tt, flushed r s)
  unfolding flush_buffer flushed Level.add_run Level.run_count Level.needs_compaction
  flush_runs r s some_pairs e (inl off) = rw (some_pairs, e, off)
  flush_runs r s some_pairs e (inr calm) =
      let longer : length (first.runs ++ r ∷ []) ≡ length first.runs + 1 =
        omega (arith, length-append first.runs (r ∷ [])) in
      elim (Bool-cases t.compaction_enabled) [
        | inl enabled ↦ rw (some_pairs, e, enabled, longer, calm)
        | inr off ↦ rw (some_pairs, e, off)
      ]

  -- A flush moves the buffer into a new run at the end of level 1. With level 0 empty, the runs named
  -- after their places, pairs of 64-bit values, a filter with bits,
  -- the files of the new run allowed, and no compaction due (or compaction switched off), it
  -- succeeds, the buffer is empty, and every key keeps its newest value.
  pub flush_buffer-newest :
      TreeHolds (record t { levels = top ∷ first ∷ deeper }) ([] ∷ pss ∷ psss)
      → LevelsNamed 0 (top ∷ first ∷ deeper)
      → (t.buffer.num_elements == 0) ≡ false
      → Fits (SkipList.get_all_sorted t.buffer)
      → 0
        < optimal_bits d
            (length (SkipList.get_all_sorted t.buffer))
            (calculate_fpr_for_level d t.max_level 1)
      → IsAllowed t.store (data_filename 1 (length first.runs))
      → (t.compaction_enabled ≡ false) ⊎ (is_due first.strategy (length first.runs + 1) ≡ false)
      → (t' : LsmTree) × (flush_buffer d sort (record t { levels = top ∷ first ∷ deeper })
          ≡ (ok tt, t'))
        × TreeHolds t' ([] ∷ (pss ++ SkipList.get_all_sorted t.buffer ∷ []) ∷ psss)
        × LevelsNamed 0 t'.levels
        × (SkipList.get_all_sorted t'.buffer ≡ [])
        × ((k : ℕ)
            → newest k
                (SkipList.get_all_sorted t'.buffer)
                ([] ∷ (pss ++ SkipList.get_all_sorted t.buffer ∷ []) ∷ psss)
              ≡ newest k (SkipList.get_all_sorted t.buffer) ([] ∷ pss ∷ psss))
  unfolding flushed
  flush_buffer-newest h named some_pairs fits bits allowed calm =
      let (r, s, e, x, own_name, only, w) =
        create-Holds d pairs 1 (length first.runs) (calculate_fpr_for_level d t.max_level 1) t.store
          (is_empty-contents t.buffer h.buffered ∙ some_pairs) fits
          (get_all_sorted-Ascends t.buffer h.buffered) bits allowed in
      (
        flushed r s,
        flush_runs r s some_pairs e calm,
        record {
          buffered = empty-IsValid.0;
          on_disk = flushed-LevelsHold r s h.on_disk named x only;
        },
        flushed-LevelsNamed r named own_name,
        empty-IsValid.1,
        λ k.
            ap (λ ps. newest k ps ([] ∷ (pss ++ pairs ∷ []) ∷ psss)) empty-IsValid.1
            ∙ flushed-newest k,
      )
