-- ===== src/Tree/Range.antt =====
-- `LSMTree::range` merges the answers of the buffer and of all runs.
use cs.Prelude.{
  ℕ, ◌≡◌, refl, ap, sym, ◌∙◌, List, [], ◌∷◌, ◌++◌, Bool, true, ◌&&◌, ◌||◌, some, is_empty,
  if◌then◌else◌, arith, Bool-cases, inl, inr,
}
use cs.Int64.{le64}
use cs.Result.{ok}
use cs.Pair.{KeyValuePair, Ascends, lookup, within}
use cs.Compaction.{unique}
use cs.Compaction.Newest.{unique-lookup}
use cs.Compaction.Sorting.{IsSort}
use cs.SkipList
use cs.SkipList.Contents.{range-within-get_all_sorted}
use cs.Double.{Doubles}
use cs.Store.{Store}
use cs.Run.{Run}
use cs.Run.Holds.{SameFiles, SameFiles-refl, SameFiles-trans, Holds-SameFiles}
use cs.Run.Range.{range-within}
use cs.Level.{Level}
use cs.Tree.{LsmTree}
use cs.Tree.Access.{range, range_in_runs, range_in_levels}
use cs.Tree.Holds.{RunsHold, LevelsHold, TreeHolds, LevelsHold-SameFiles}
use cs.Tree.Versions.{
  has, has_in_runs, has_in_levels, has_version, in_range, has-append, has-within, has-lookup,
  lookup-has, has-Perm,
}

module _ (start_key end_key : ℕ) where
  abbrev Collects : (ℕ → ℕ → Bool) → List KeyValuePair → Type 0
  Collects f rs = (k v : ℕ) → has k v rs ≡ (in_range start_key end_key k && f k v)

  range_in_runs_lem :
      (s : Store) (rs : List Run) (pss : List (List KeyValuePair))
      → RunsHold s rs pss
      → (found : List KeyValuePair) × (s' : Store) × (range_in_runs rs start_key end_key s
          ≡ (ok found, s'))
        × SameFiles s s'
        × Collects (λ k v. has_in_runs k v pss) found
  unfolding range_in_runs has_in_runs has
  range_in_runs_lem s [] [] h = ([], s, refl, SameFiles-refl s, λ k v. ground arith)
  range_in_runs_lem s [] (ps ∷ pss) h = absurd h
  range_in_runs_lem s (r ∷ rs) [] h = absurd h
  range_in_runs_lem s (r ∷ rs) (ps ∷ pss) h =
      let (later, s', e, x, f) = range_in_runs_lem s rs pss h.1 in
      let (s'', e', x') = range-within s' r ps start_key end_key (Holds-SameFiles x h.0) in
      (
        later ++ within start_key end_key ps,
        s'',
        rw (e, e'),
        SameFiles-trans x x',
        λ k v.
            has-append k v later (within start_key end_key ps)
            ∙ ground (arith, f k v, has-within k v start_key end_key ps),
      )

  range_in_levels_lem :
      (s : Store) (ls : List Level) (psss : List (List (List KeyValuePair)))
      → LevelsHold s ls psss
      → (found : List KeyValuePair) × (s' : Store) × (range_in_levels ls start_key end_key s
          ≡ (ok found, s'))
        × SameFiles s s'
        × Collects (λ k v. has_in_levels k v psss) found
  unfolding range_in_levels has_in_levels has
  range_in_levels_lem s [] [] h = ([], s, refl, SameFiles-refl s, λ k v. ground arith)
  range_in_levels_lem s [] (pss ∷ psss) h = absurd h
  range_in_levels_lem s (l ∷ ls) [] h = absurd h
  range_in_levels_lem s (l ∷ ls) (pss ∷ psss) h =
      let (here, s', e, x, f) = range_in_runs_lem s l.runs pss h.0 in
      let (deeper, s'', e', x', g) =
        range_in_levels_lem s' ls psss (LevelsHold-SameFiles s s' ls psss x h.1) in
      (
        here ++ deeper,
        s'',
        rw (e, e'),
        SameFiles-trans x x',
        λ k v. has-append k v here deeper ∙ ground (arith, f k v, g k v),
      )

  -- What `range` makes of the pairs that it has collected.
  abbrev IsAnswer : (ℕ → ℕ → Bool) → List KeyValuePair → Type 0
  IsAnswer f rs =
      Ascends 0 rs
      × ((k v : ℕ) → lookup k rs ≡ some v → (in_range start_key end_key k ≡ true) × (f k v ≡ true))
      × ((k v : ℕ)
          → in_range start_key end_key k ≡ true
          → f k v ≡ true
          → (w : ℕ) × (lookup k rs ≡ some w))

  IsAnswer-unique :
      (sort : List KeyValuePair → List KeyValuePair) (f : ℕ → ℕ → Bool) (rs : List KeyValuePair)
      → IsSort sort
      → Collects f rs
      → IsAnswer f (unique (sort rs))
  IsAnswer-unique sort f rs std c =
      let (a, same) = unique-lookup (sort rs) (std.sorted rs) in
      (
        a,
        (λ k v e.
            let there = has-lookup k v (sort rs) (sym (same k) ∙ e) in
            let kept = sym (has-Perm k v (sort rs) rs (std.same_pairs rs) ∙ c k v) ∙ there in
            (ground arith, ground arith)),
        λ k v inside there.
            let kept : has k v rs ≡ true = ground (arith, c k v) in
            let (w, e) =
              lookup-has k v (sort rs) (has-Perm k v (sort rs) rs (std.same_pairs rs) ∙ kept) in
            (w, same k ∙ e),
      )

  IsAnswer-empty : (f : ℕ → ℕ → Bool) → Collects f [] → IsAnswer f []
  unfolding lookup has
  IsAnswer-empty f c = (tt, (λ k v e. cc), λ k v inside there. absurd (ground (arith, c k v)))

  IsAnswer-results :
      (sort : List KeyValuePair → List KeyValuePair) (f : ℕ → ℕ → Bool) (rs : List KeyValuePair)
      → IsSort sort
      → Collects f rs
      → IsAnswer f (if is_empty rs then [] else unique (sort rs))
  IsAnswer-results sort f [] std c = IsAnswer-empty f c
  IsAnswer-results sort f (r ∷ rs) std c = IsAnswer-unique sort f (r ∷ rs) std c

  -- On a tree that holds `psss`, whatever `std::sort` does with equal keys, `range` returns pairs in
  -- strictly ascending order of their keys; each has a key in [start_key, end_key) and is held in the
  -- buffer or a run, and every such key that the buffer or a run holds is among them. The tree
  -- holds what it held.
  pub range-has_version :
      (d : Doubles) (sort : List KeyValuePair → List KeyValuePair) (t : LsmTree)
      (psss : List (List (List KeyValuePair)))
      → IsSort sort
      → TreeHolds t psss
      → (rs : List KeyValuePair) × (t' : LsmTree) × (range d sort start_key end_key t ≡ (ok rs, t'))
        × TreeHolds t' psss
        × Ascends 0 rs
        × ((k v : ℕ)
            → lookup k rs ≡ some v
            → (in_range start_key end_key k ≡ true)
              × (has_version k v (SkipList.get_all_sorted t.buffer) psss ≡ true))
        × ((k v : ℕ)
            → in_range start_key end_key k ≡ true
            → has_version k v (SkipList.get_all_sorted t.buffer) psss ≡ true
            → (w : ℕ) × (lookup k rs ≡ some w))
  unfolding range has_version lookup
  range-has_version d sort t psss std h =
      let buffered = SkipList.get_all_sorted t.buffer in
      let mine = SkipList.range t.buffer start_key end_key in
      elim (Bool-cases (le64 end_key start_key)) [
        | inl nothing ↦ (
          [],
          t,
          rw nothing refl,
          h,
          tt,
          (λ k v e. cc),
          λ k v inside there. absurd (ground arith),
        )
        | inr something ↦
            let (below, s, e, x, f) = range_in_levels_lem t.store t.levels psss h.on_disk in
            let results = mine ++ below in
            let from_buffer : (k v : ℕ)
                → has k v mine ≡ (in_range start_key end_key k && has k v buffered) =
              λ k v.
                ap (has k v) (range-within-get_all_sorted t.buffer start_key end_key h.buffered)
                ∙ has-within k v start_key end_key buffered in
            let answer =
              IsAnswer-results sort (λ k v. has k v buffered || has_in_levels k v psss) results std
                (λ k v. has-append k v mine below ∙ ground (arith, f k v, from_buffer k v)) in
            (
              if is_empty results then [] else unique (sort results),
              record t { store = s },
              rw (something, e)
                  (elim (Bool-cases (is_empty results)) [ inl z ↦ rw z refl | inr z ↦ rw z refl ]),
              record {
                buffered = h.buffered;
                on_disk = LevelsHold-SameFiles t.store s t.levels psss x h.on_disk;
              },
              answer.0,
              answer.1,
              answer.2,
            )
      ]
