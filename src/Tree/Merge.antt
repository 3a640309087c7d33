-- ===== src/Tree/Merge.antt =====
-- What `perform_compaction` makes of the runs of a level: it reads all pairs, sorts and merges them.
use mathlib.Core.List.{Mem, Perm, mem-cons_self, mem-cons_of_mem, not-mem-nil, mem-cons}
use mathlib.Core.List.Perm
use mathlib.Core.Logic.Or
use native.Mathlib.Bridge.{le_prop}
use cs.Prelude.{
  ℕ, ◌<◌, ◌≡◌, refl, ap, ◌∙◌, List, [], ◌∷◌, ◌++◌, Option, some, arith, ◌==◌, if◌then◌else◌, false,
  true, is_empty, get_elem?, length, Bool-cases, inl, inr, suc, ==_iff,
}
use cs.Int64.{word, rank}
use cs.Result.{ok}
use cs.Pair.{KeyValuePair, Fits, Ascends, lookup}
use cs.Pair.Order.{lookup_below}
use cs.Store.{Store}
use cs.Run.{Run}
use cs.Run.Pairs.{get_all_pairs_lem}
use cs.Compaction.{deduplicate, last_value, live}
use cs.Compaction.Newest.{deduplicate-last_value}
use cs.Compaction.Sorting.{IsSort}
use cs.Compaction.Choices.{Chosen, last_value-sort, deduplicate-Fits}
use cs.Level.{Level}
use cs.Tree.{LsmTree}
use cs.Tree.Splits.{get_elem?-middle}
use cs.Double.{Doubles}
use cs.Tree.Compact.{collect, by_strategy, compact_level, perform_compaction}
use cs.Tree.Holds.{RunsHold, newest_of_runs, first_some}

-- The pairs of the runs of a level, the oldest run first.
unfoldable pub concat : List (List KeyValuePair) → List KeyValuePair
concat [] = []
concat (ps ∷ pss) = ps ++ concat pss

-- All pairs of the runs are read, the oldest run first.
pub collect-concat :
    (s : Store) (rs : List Run) (pss : List (List KeyValuePair))
    → RunsHold s rs pss
    → collect rs s ≡ (ok (concat pss), s)
unfolding collect concat
collect-concat s [] [] h = refl
collect-concat s [] (ps ∷ pss) h = absurd h
collect-concat s (r ∷ rs) [] h = absurd h
collect-concat s (r ∷ rs) (ps ∷ pss) h =
    rw (get_all_pairs_lem s r ps h.0, collect-concat s rs pss h.1)

last_value-append :
    (k : ℕ) (ps qs : List KeyValuePair)
    → last_value k (ps ++ qs) ≡ first_some (last_value k qs) (last_value k ps)
unfolding last_value
last_value-append k [] qs = ground arith
last_value-append k (p ∷ ps) qs = ground (arith, last_value-append k ps qs)

-- In a run a key has one value.
last_value-lookup :
    (k lo : ℕ) (ps : List KeyValuePair) → Ascends lo ps → last_value k ps ≡ lookup k ps
unfolding last_value lookup
last_value-lookup k lo [] a = refl
last_value-lookup k lo (p ∷ ps) a = elim (Bool-cases (p.key == k)) [
  | inl same ↦
      let e : rank p.key ≡ rank k = ap rank ((==_iff p.key k).0 same) in
      let later = last_value-lookup k (suc (rank p.key)) ps a.1 in
      let gone = lookup_below k (suc (rank p.key)) ps a.1 (omega arith) in ground arith
  | inr other ↦ ground (arith, last_value-lookup k (suc (rank p.key)) ps a.1)
]

last_value-concat :
    (s : Store) (k : ℕ) (rs : List Run) (pss : List (List KeyValuePair))
    → RunsHold s rs pss
    → last_value k (concat pss) ≡ newest_of_runs k pss
unfolding last_value concat newest_of_runs
last_value-concat s k [] [] h = refl
last_value-concat s k [] (ps ∷ pss) h = absurd h
last_value-concat s k (r ∷ rs) [] h = absurd h
last_value-concat s k (r ∷ rs) (ps ∷ pss) h = rw (
  last_value-append k ps (concat pss),
  last_value-concat s k rs pss h.1,
  last_value-lookup k 0 ps h.0.ascending,
)

pub Fits-append : (ps qs : List KeyValuePair) → Fits ps → Fits qs → Fits (ps ++ qs)
Fits-append [] qs f g = g
Fits-append (p ∷ ps) qs f g = (f.0, f.1, Fits-append ps qs f.2 g)

concat-Fits :
    (s : Store) (rs : List Run) (pss : List (List KeyValuePair))
    → RunsHold s rs pss
    → Fits (concat pss)
unfolding concat
concat-Fits s [] [] h = tt
concat-Fits s [] (ps ∷ pss) h = absurd h
concat-Fits s (r ∷ rs) [] h = absurd h
concat-Fits s (r ∷ rs) (ps ∷ pss) h =
    Fits-append ps (concat pss) h.0.fits (concat-Fits s rs pss h.1)

abbrev PairFits : KeyValuePair → Type 0
PairFits p = (p.key < word) × (p.value < word)

PairFits-prop : (p : KeyValuePair) → IsProp (PairFits p)
PairFits-prop p = hlevel (le_prop)

Fits-Mem : (p : KeyValuePair) (ps : List KeyValuePair) → Fits ps → Mem p ps → PairFits p
Fits-Mem p [] f m = absurd (not-mem-nil m)
Fits-Mem p (q ∷ ps) f m =
    Or.elim (PairFits-prop p) (mem-cons.0 m) (λ e. rw e (f.0, f.1))
      (λ later. Fits-Mem p ps f.2 later)

Fits-all : (ps : List KeyValuePair) → ((p : KeyValuePair) → Mem p ps → PairFits p) → Fits ps
Fits-all [] h = tt
Fits-all (p ∷ ps) h =
    ((h p mem-cons_self).0, (h p mem-cons_self).1, Fits-all ps (λ q m. h q (mem-cons_of_mem p m)))

pub Fits-Perm : (ps qs : List KeyValuePair) → Perm ps qs → Fits qs → Fits ps
Fits-Perm ps qs same f = Fits-all ps (λ p m. Fits-Mem p qs f ((Perm.mem_iff same).0 m))

-- The pairs that `perform_compaction` writes for a level with the runs `pss`.
unfoldable pub merged :
    (List KeyValuePair → List KeyValuePair) → List (List KeyValuePair) → List KeyValuePair
unfolding concat
merged sort pss = deduplicate (sort (concat pss))

-- What a merge of the runs takes for a key: its newest value, or another one where the runs hold several.
abbrev pub Taken : ℕ → List (List KeyValuePair) → Option ℕ → Type 0
Taken k pss o = Chosen k (concat pss) (newest_of_runs k pss) o

-- Merging the runs of a level leaves each key with the value that is taken for it, unless that value marks a
-- deletion.
pub lookup-merged :
    (sort : List KeyValuePair → List KeyValuePair) (s : Store) (rs : List Run)
    (pss : List (List KeyValuePair))
    → IsSort sort
    → RunsHold s rs pss
    → Fits (merged sort pss)
      × Ascends 0 (merged sort pss)
      × ((k : ℕ) → (o : Option ℕ) × Taken k pss o × (lookup k (merged sort pss) ≡ live o))
unfolding merged
lookup-merged sort s rs pss std h =
    let sorted = std.sorted (concat pss) in
    let (ascends, finds) = deduplicate-last_value (sort (concat pss)) sorted in
    (
      deduplicate-Fits (sort (concat pss)) (
          Fits-Perm (sort (concat pss)) (concat pss) (std.same_pairs (concat pss))
            (concat-Fits s rs pss h)),
      ascends,
      λ k. (
        last_value k (sort (concat pss)),
        rw (last_value-concat s k rs pss h) at (last_value-sort sort std k (concat pss)),
        finds k,
      ),
    )

-- A merge makes no pairs out of nothing.
pub merged_nonempty :
    (sort : List KeyValuePair → List KeyValuePair) (s : Store) (rs : List Run)
    (pss : List (List KeyValuePair))
    → IsSort sort
    → RunsHold s rs pss
    → is_empty (merged sort pss) ≡ false
    → is_empty (concat pss) ≡ false
unfolding merged deduplicate
merged_nonempty sort s rs pss std h left = kept (concat pss) left
  where
    kept : (qs : List KeyValuePair) → is_empty (deduplicate (sort qs)) ≡ false → is_empty qs ≡ false
    kept [] e =
        let gone : deduplicate (sort []) ≡ [] = ap deduplicate (Perm.eq-nil (std.same_pairs [])) in
        rw gone at e
    kept (q ∷ qs) e = refl

-- A compaction reads and merges the pairs of its level, and goes on by the level's strategy.
pub perform_compaction_level :
    (d : Doubles) (sort : List KeyValuePair → List KeyValuePair) (fuel : ℕ) (t : LsmTree)
    (above : List Level) (l : Level) (deeper : List Level) (pss : List (List KeyValuePair))
    → t.levels ≡ above ++ l ∷ deeper
    → t.compaction_enabled ≡ true
    → RunsHold t.store l.runs pss
    → is_empty (concat pss) ≡ false
    → perform_compaction d sort (suc fuel) (length above) t
      ≡ by_strategy d sort
          (perform_compaction d sort fuel)
          l.strategy
          (merged sort pss)
          (length above)
          (length l.runs)
          t
unfolding perform_compaction compact_level merged
perform_compaction_level d sort fuel t above l deeper pss e on h some_pairs =
    let level = compact_level d sort (perform_compaction d sort fuel) (length above) t in
    let there : get_elem? t.levels (length above) ≡ some l =
      ap (λ ls. get_elem? ls (length above)) e ∙ get_elem?-middle above l deeper in
    ap (λ c. if c then level else (ok tt, t)) on
    ∙ rw (there, collect-concat t.store l.runs pss h, some_pairs) refl
