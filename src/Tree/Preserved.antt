-- ===== src/Tree/Preserved.antt =====
-- What a compaction does to the map that a tree stands for.
use cs.Prelude.{
  ℕ, ◌+◌, true, length, ◌≡◌, ◌⊎◌, refl, sym, ap, ◌∙◌, List, [], ◌∷◌, ◌++◌, Option, some, none, ◌==◌,
  inl, inr, Bool-cases, ==_iff,
}
use cs.Int64.{tombstone}
use cs.Pair.{KeyValuePair, lookup}
use cs.Compaction.{live}
use cs.Compaction.Choices.{Contested}
use cs.Tree.Merge.{Taken, concat, merged}
use cs.Level.{Level, is_due}
use cs.Tree.Holds.{newest, newest_of_runs, newest_of_levels, first_some}
use cs.Tree.Splits.{newest_of_levels-append, newest_of_runs-snoc}

-- The newest value of a key once the runs of a level are merged and `taken` is their value of the key: where
-- it marks a deletion, the key has what the deeper levels hold for it.
unfoldable pub newest_merged :
    ℕ
    → List KeyValuePair
    → List (List (List KeyValuePair))
    → Option ℕ
    → List (List (List KeyValuePair))
    → Option ℕ
newest_merged k buffered apsss taken psss =
    first_some (lookup k buffered)
      (first_some (newest_of_levels k apsss) (first_some (live taken) (newest_of_levels k psss)))

-- After a merge of the runs `pss` of a level, a key has its newest value, where that of the level is the
-- newest one of the runs, or another one if the runs hold the key with several values; where it marks a
-- deletion, the key has what the deeper levels hold for it.
abbrev pub Merges :
    ℕ
    → List KeyValuePair
    → List (List (List KeyValuePair))
    → List (List KeyValuePair)
    → List (List (List KeyValuePair))
    → Option ℕ
    → Type 0
Merges k buffered apsss pss psss after =
    (o : Option ℕ) × Taken k pss o × (after ≡ newest_merged k buffered apsss o psss)

-- A value is kept, and so is that there is none, but for a deletion mark and where `D` holds.
abbrev pub Preserved : Type 0 → Option ℕ → Option ℕ → Type 0
Preserved D before after = (before ≡ some tombstone) ⊎ ((after ≡ before) ⊎ D)

pub Preserved-trans :
    {D : Type 0} (x y z : Option ℕ) → Preserved D x y → Preserved D y z → Preserved D x z
Preserved-trans x y z (inl e) q = inl e
Preserved-trans x y z (inr (inl e)) (inl e') = inl (sym e ∙ e')
Preserved-trans x y z (inr (inl e)) (inr (inl e')) = inr (inl (e' ∙ e))
Preserved-trans x y z (inr (inl e)) (inr (inr h)) = inr (inr h)
Preserved-trans x y z (inr (inr h)) q = inr (inr h)

first_some-Preserved :
    {D : Type 0} (o : Option ℕ) (x y : Option ℕ)
    → Preserved D x y
    → Preserved D (first_some o x) (first_some o y)
first_some-Preserved (some v) x y p = inr (inl refl)
first_some-Preserved none x y p = p

live-Preserved :
    {D : Type 0} (o x : Option ℕ) → Preserved D (first_some o x) (first_some (live o) x)
live-Preserved none x = inr (inl refl)
live-Preserved (some v) x = elim (Bool-cases (v == tombstone)) [
  | inl mark ↦ inl (ap (λ w. some w) ((==_iff v tombstone).0 mark))
  | inr value ↦ inr (inl (rw value))
]

live-Taken :
    {D : Type 0} (k : ℕ) (pss : List (List KeyValuePair)) (o x : Option ℕ)
    → (Contested k (concat pss) → D)
    → Taken k pss o
    → Preserved D (first_some (newest_of_runs k pss) x) (first_some (live o) x)
live-Taken k pss o x f (inl e) = rw e (live-Preserved (newest_of_runs k pss) x)
live-Taken k pss o x f (inr (v, e, here, several)) = inr (inr (f several))

newest_merged-Preserved :
    {D : Type 0} (k : ℕ) (buffered : List KeyValuePair) (apsss : List (List (List KeyValuePair)))
    (pss : List (List KeyValuePair)) (psss : List (List (List KeyValuePair))) (o : Option ℕ)
    → (Contested k (concat pss) → D)
    → Taken k pss o
    → Preserved D (newest k buffered (apsss ++ pss ∷ psss)) (newest_merged k buffered apsss o psss)
unfolding newest newest_merged newest_of_levels
newest_merged-Preserved k buffered apsss pss psss o f taken =
    rw (newest_of_levels-append k apsss (pss ∷ psss)) (
      first_some-Preserved (lookup k buffered) _ _ (
        first_some-Preserved (newest_of_levels k apsss) _ _
          (live-Taken k pss o (newest_of_levels k psss) f taken)))

-- The runs `pss` that are merged hold the key with several values, or so do the runs of the next level, `tss`
-- with the merged one, where that level is due for a merge too.
abbrev pub Varies :
    Level
    → (List KeyValuePair → List KeyValuePair)
    → ℕ
    → List (List KeyValuePair)
    → List (List KeyValuePair)
    → Type 0
Varies next sort k pss tss =
    Contested k (concat pss)
    ⊎ ((is_due next.strategy (length next.runs + 1) ≡ true)
        × Contested k (concat (tss ++ merged sort pss ∷ [])))

-- A merge keeps the newest value of a key, but for a deletion mark and where the runs hold several values.
pub Merges-Preserved :
    {D : Type 0} (k : ℕ) (buffered : List KeyValuePair) (apsss : List (List (List KeyValuePair)))
    (pss : List (List KeyValuePair)) (psss : List (List (List KeyValuePair))) (after : Option ℕ)
    → (Contested k (concat pss) → D)
    → Merges k buffered apsss pss psss after
    → Preserved D (newest k buffered (apsss ++ pss ∷ psss)) after
Merges-Preserved k buffered apsss pss psss after f (o, taken, e) =
    rw e (newest_merged-Preserved k buffered apsss pss psss o f taken)

first_some_assoc :
    (o p q : Option ℕ) → first_some (first_some o p) q ≡ first_some o (first_some p q)
first_some_assoc (some v) p q = refl
first_some_assoc none p q = refl

-- Behind an emptied level the merged pairs are the newest run of the next level but for levels that
-- hold nothing.
pub newest-moved :
    (k : ℕ) (buffered : List KeyValuePair) (apsss : List (List (List KeyValuePair)))
    (pss : List (List KeyValuePair)) (mids : List (List (List KeyValuePair)))
    (tss : List (List KeyValuePair)) (rest : List (List (List KeyValuePair)))
    (ps : List KeyValuePair)
    → ((o : Option ℕ) × Taken k pss o × (lookup k ps ≡ live o))
    → newest_of_levels k mids ≡ none
    → Merges k buffered apsss pss
        (mids ++ tss ∷ rest)
        (newest k buffered (apsss ++ [] ∷ (mids ++ (tss ++ ps ∷ []) ∷ rest)))
unfolding newest newest_merged newest_of_levels newest_of_runs
newest-moved k buffered apsss pss mids tss rest ps (o, taken, merges) free =
    let tail = first_some_assoc (lookup k ps) (newest_of_runs k tss) (newest_of_levels k rest) in
    (
      o,
      taken,
      rw (
        newest_of_levels-append k apsss ([] ∷ (mids ++ (tss ++ ps ∷ []) ∷ rest)),
        newest_of_levels-append k mids ((tss ++ ps ∷ []) ∷ rest),
        newest_of_levels-append k mids (tss ∷ rest),
        free,
        newest_of_runs-snoc k tss ps,
        tail,
        merges,
      ),
    )

-- The merged pairs are the only run of their level.
pub newest-replaced :
    (k : ℕ) (buffered : List KeyValuePair) (apsss : List (List (List KeyValuePair)))
    (pss : List (List KeyValuePair)) (rest : List (List (List KeyValuePair)))
    (ps : List KeyValuePair)
    → ((o : Option ℕ) × Taken k pss o × (lookup k ps ≡ live o))
    → Merges k buffered apsss pss rest (newest k buffered (apsss ++ (ps ∷ []) ∷ rest))
unfolding newest newest_merged newest_of_levels newest_of_runs
newest-replaced k buffered apsss pss rest ps (o, taken, merges) =
    (o, taken, rw (newest_of_levels-append k apsss ((ps ∷ []) ∷ rest), merges))
