-- ===== src/Tree/Leveling.antt =====
-- `perform_compaction` on a level of one of the leveling strategies: its runs are merged into one run,
-- which stays in the level or goes to a deeper one.
use cs.Prelude.{
  ℕ, suc, ◌*◌, ◌≡◌, ◌≢◌, ◌⊎◌, ◌<◌, inl, inr, refl, ap, ◌∙◌, List, [], ◌∷◌, ◌++◌, true, false, arith,
  length, ltb, is_empty, ◌==◌,
}
use cs.Result.{ok}
use cs.Pair.{KeyValuePair}
use cs.Double.{Doubles}
use cs.Bloom.{optimal_bits}
use cs.SkipList
use cs.Compaction.Sorting.{IsSort}
use cs.Store.{Store}
use cs.Run
use cs.Run.{Run, data_filename, pair_size}
use cs.Run.Holds.{Holds}
use cs.Run.Rights.{IsAllowed-rights}
use cs.Run.Create.{IsAllowed, create-Holds}
use cs.Level
use cs.Level.{Level, CompactionStrategy, lazy_leveling, leveling, is_due, delete_all}
use cs.Tree.{LsmTree, TreeAction, calculate_fpr_for_level, get_target_level_for_size}
use cs.Tree.Compact.{by_strategy, in_place, extend_if_used, compact_leveling, perform_compaction}
use cs.Tree.Holds.{RunsHold, LevelsHold, TreeHolds, newest}
use cs.Tree.Names.{LevelsNamed}
use cs.Tree.Frame.{SameFile, LevelsHold-SameFile, OnlyFilesOf-SameFile, delete_all-SameFile}
use cs.Tree.Merge.{merged, concat, lookup-merged, merged_nonempty, perform_compaction_level}
use cs.Tree.Splits.{
  LevelsHold-split, LevelsHold-append, LevelsNamed-split, LevelsNamed-append, get_elem?-middle,
  set-middle,
}
use cs.Tree.Moves.{cleared, clear_level_lem, append_run_lem}
use cs.Tree.Preserved.{Merges, newest-replaced}

-- The level with one run.
abbrev pub with_run : Level → Run → Level
with_run l r = record l { runs = r ∷ [] }

abbrev pub IsLeveling : CompactionStrategy → Type 0
IsLeveling st = (st ≡ lazy_leveling) ⊎ (st ≡ leveling)

module _ (d : Doubles) (sort : List KeyValuePair → List KeyValuePair) (fuel : ℕ) (t : LsmTree)
    (above : List Level) (l : Level) (deeper : List Level) (apsss : List (List (List KeyValuePair)))
    (pss : List (List KeyValuePair)) (rest : List (List (List KeyValuePair))) where
  abbrev before : LsmTree
  before = record t { levels = above ++ l ∷ deeper }

  abbrev next : ℕ → TreeAction (Unit {0})
  next = perform_compaction d sort fuel

  abbrev a : ℕ
  a = length above

  -- Both strategies do the same.
  pub leveling_lem :
      t.compaction_enabled ≡ true
      → IsLeveling l.strategy
      → RunsHold t.store l.runs pss
      → is_empty (concat pss) ≡ false
      → perform_compaction d sort (suc fuel) a before
        ≡ compact_leveling d sort next (merged sort pss) a before
  leveling_lem on (inl lazy) h some_pairs =
      perform_compaction_level d sort fuel before above l deeper pss refl on h some_pairs
      ∙ ap (λ st. by_strategy d sort next st (merged sort pss) a (length l.runs) before) lazy
  leveling_lem on (inr level) h some_pairs =
      perform_compaction_level d sort fuel before above l deeper pss refl on h some_pairs
      ∙ ap (λ st. by_strategy d sort next st (merged sort pss) a (length l.runs) before) level

  in_place_lem :
      (ps : List KeyValuePair) (r : Run) (s₁ s₂ : Store)
      → delete_all l.runs t.store ≡ (ok tt, s₁)
      → Run.create d ps a 0 (calculate_fpr_for_level d t.max_level a) s₁ ≡ (ok r, s₂)
      → in_place d sort next ps a before
        ≡ (ok tt, record t { levels = above ++ with_run l r ∷ deeper; store = s₂ })
  unfolding Level.add_run
  in_place_lem ps r s₁ s₂ gone made =
      let bare : LsmTree = record t { levels = above ++ cleared l ∷ deeper; store = s₁ } in
      let emptied =
        clear_level_lem a l before s₁ (get_elem?-middle above l deeper) gone
        ∙ ap (λ ls. (ok tt, record t { levels = ls; store = s₁ }))
            (set-middle above l (cleared l) deeper) in
      let appended =
        append_run_lem d sort ps a 0 (cleared l) r bare s₂
          (get_elem?-middle above (cleared l) deeper) made
        ∙ ap (λ ls. (ok tt, record t { levels = ls; store = s₂ }))
            (set-middle above (cleared l) (with_run l r) deeper) in
      rw emptied appended

  stays_lem :
      (ps : List KeyValuePair) (after : LsmTree)
      → is_empty ps ≡ false
      → ltb a (get_target_level_for_size d before (length ps * pair_size)) ≡ false
      → (a == after.max_level) ≡ false
      → in_place d sort next ps a before ≡ (ok tt, after)
      → compact_leveling d sort next ps a before ≡ (ok tt, after)
  unfolding compact_leveling extend_if_used
  stays_lem ps after left fits inner moves = rw (left, fits, moves, inner)

  replaced-Holds :
      (s : Store) (r : Run) (ps : List KeyValuePair)
      → ((i j : ℕ) → a ≢ i → SameFile t.store s i j)
      → Holds s r ps
      → r.filename ≡ data_filename a 0
      → length apsss ≡ length above
      → LevelsHold t.store (above ++ l ∷ deeper) (apsss ++ pss ∷ rest)
      → LevelsNamed 0 (above ++ l ∷ deeper)
      → LevelsHold s (above ++ with_run l r ∷ deeper) (apsss ++ (ps ∷ []) ∷ rest)
        × LevelsNamed 0 (above ++ with_run l r ∷ deeper)
  replaced-Holds s r ps same new own_name e h named =
      let (h₀, h₁) = LevelsHold-split t.store above (l ∷ deeper) apsss (pss ∷ rest) e h in
      let (n₀, n₁) = LevelsNamed-split 0 a above (l ∷ deeper) (omega arith) named in
      (
        LevelsHold-append s above (with_run l r ∷ deeper) apsss ((ps ∷ []) ∷ rest)
            (LevelsHold-SameFile t.store s 0 above apsss (λ i j x y. same i j (λ z. omega arith)) n₀
              h₀)
            (
              (new, tt),
              LevelsHold-SameFile t.store s (suc a) deeper rest
                  (λ i j x y. same i j (λ z. omega arith)) n₁.1 h₁.1,
            ),
        LevelsNamed-append 0 a above (with_run l r ∷ deeper) (omega arith) n₀
            ((own_name, tt), n₁.1),
      )

  -- A compaction of a leveling or lazy leveling level whose merged pairs fit in it, and which is not
  -- max_level: for a sort that meets the contract of `std::sort` and on a well-formed tree whose runs are named after their places,
  -- where some pair is left after the merge, the filter of the new run has bits and its files may be
  -- created, it succeeds, leaves the level with one run, that of the merged pairs, and keeps
  -- the tree well formed; every key has its newest value, but a key that the
  -- merged runs hold with several values may have another one of these, and a key whose value of the level
  -- marks a deletion has what the deeper levels hold for it.
  pub perform_compaction-in_place :
      length apsss ≡ length above
      → IsSort sort
      → t.compaction_enabled ≡ true
      → IsLeveling l.strategy
      → TreeHolds (record t { levels = above ++ l ∷ deeper }) (apsss ++ pss ∷ rest)
      → LevelsNamed 0 (above ++ l ∷ deeper)
      → is_empty (merged sort pss) ≡ false
      → ltb (length above) (
          get_target_level_for_size d
            (record t { levels = above ++ l ∷ deeper })
            (length (merged sort pss) * pair_size))
        ≡ false
      → 0
        < optimal_bits d
            (length (merged sort pss))
            (calculate_fpr_for_level d t.max_level (length above))
      → IsAllowed t.store (data_filename (length above) 0)
      → (length above == t.max_level) ≡ false
      → (t' : LsmTree) × (perform_compaction d sort
            (suc fuel)
            (length above)
            (record t { levels = above ++ l ∷ deeper })
          ≡ (ok tt, t'))
        × TreeHolds t' (apsss ++ (merged sort pss ∷ []) ∷ rest)
        × LevelsNamed 0 t'.levels
        × (t'.buffer ≡ t.buffer)
        × (t'.max_level ≡ t.max_level)
        × ((k : ℕ)
            → Merges k (SkipList.get_all_sorted t.buffer) apsss pss rest (
                newest k
                  (SkipList.get_all_sorted t'.buffer)
                  (apsss ++ (merged sort pss ∷ []) ∷ rest)))
  perform_compaction-in_place e std on levels h named left fits bits allowed inner =
      let (h₀, h₁) = LevelsHold-split t.store above (l ∷ deeper) apsss (pss ∷ rest) e h.on_disk in
      let (n₀, n₁) = LevelsNamed-split 0 a above (l ∷ deeper) (omega arith) named in
      let (pairs_fit, ascends, finds) = lookup-merged sort t.store l.runs pss std h₁.0 in
      let some_pairs = merged_nonempty sort t.store l.runs pss std h₁.0 left in
      let (s₁, gone, rights, w, kept) = delete_all-SameFile a 0 l.runs t.store n₁.0 in
      let fpr = calculate_fpr_for_level d t.max_level a in
      let (r, s₂, made, new, own_name, only, w') =
        create-Holds d (merged sort pss) a 0 fpr s₁ left pairs_fit ascends bits
          (IsAllowed-rights t.store s₁ (data_filename a 0) rights allowed) in
      let same = λ (i j : ℕ) (x : a ≢ i).
        OnlyFilesOf-SameFile s₁ s₂ a 0 i j only (λ z. x z.0) ∙ kept i j x in
      let after : LsmTree = record t { levels = above ++ with_run l r ∷ deeper; store = s₂ } in
      let (h', named') =
        replaced-Holds s₂ r (merged sort pss) same new own_name e h.on_disk named in
      (
        after,
        leveling_lem on levels h₁.0 some_pairs
            ∙ stays_lem (merged sort pss) after left fits inner
                (in_place_lem (merged sort pss) r s₁ s₂ gone made),
        record { buffered = h.buffered; on_disk = h' },
        named',
        refl,
        refl,
        λ k.
            newest-replaced k (SkipList.get_all_sorted t.buffer) apsss pss rest (merged sort pss)
              (finds k),
      )
