-- ===== src/Compaction/Sorting.antt =====
-- What `perform_compaction` and `range` may rely on in `std::sort`, and what they may not.
use mathlib.Core.List.{Mem, Perm, mem-cons, mem-cons_self, mem-cons_of_mem, not-mem-nil}
use mathlib.Core.List.Perm
use mathlib.Core.Logic.Or
use mathlib.Core.HLevel.{⊥_prop}
use cs.Prelude.{
  ℕ, ◌≤◌, ◌≡◌, List, [], ◌∷◌, none, some, true, false, Bool, arith, ◌==◌, ==_iff, if◌then◌else◌,
  Bool-cases, Option-cases, inl, inr, ap, sym, ◌≢◌,
}
use cs.Int64.{rank, le64, lt64, tombstone}
use cs.Pair.{KeyValuePair, lookup}
use cs.Compaction.{deduplicate, IsSorted, last_value, live}
use cs.Compaction.Newest.{deduplicate-last_value}

-- The contract of `std::sort` by keys: the same pairs, in ascending order of the keys.
pub record IsSort (sort : List KeyValuePair → List KeyValuePair) : Type 0 where
  pub sorted : (ps : List KeyValuePair) → IsSorted 0 (sort ps)
  pub same_pairs : (ps : List KeyValuePair) → Perm (sort ps) ps

abbrev pub pair : ℕ → ℕ → KeyValuePair
pair key value = record { key = key; value = value }

pub last_value-Mem :
    (k v : ℕ) (ps : List KeyValuePair) → last_value k ps ≡ some v → Mem (pair k v) ps
unfolding last_value
last_value-Mem k v [] e = cc
last_value-Mem k v (p ∷ ps) e = elim (Option-cases (last_value k ps)) [
  | inl no_later ↦ let here : pair k v ≡ p = ground (arith, e, no_later) in rw here mem-cons_self
  | inr (w, later) ↦
      let same : w ≡ v = ground (arith, e, later) in
      mem-cons_of_mem p (last_value-Mem k v ps (rw same at later))
]

pub last_value-none :
    (k v : ℕ) (ps : List KeyValuePair) → last_value k ps ≡ none → ¬ Mem (pair k v) ps
unfolding last_value
last_value-none k v [] e m = not-mem-nil m
last_value-none k v (p ∷ ps) e m =
    Or.elim ⊥_prop (mem-cons.0 m)
      (λ h.
        let here : (p.key == k) ≡ true =
          (==_iff p.key k).1 (ap (λ (q : KeyValuePair). q.key) (sym h)) in
        ground (arith, e, here))
      (λ later. last_value-none k v ps (ground arith) later)

module _ (sort : List KeyValuePair → List KeyValuePair) (std : IsSort sort)
    (ps : List KeyValuePair) where
  -- For a sort that meets the contract, a merge invents no pair and keeps no deletion mark.
  pub deduplicate-sort_sound :
      (k v : ℕ) → lookup k (deduplicate (sort ps)) ≡ some v → Mem (pair k v) ps × (v ≢ tombstone)
  deduplicate-sort_sound k v e =
      let merged = (deduplicate-last_value (sort ps) (std.sorted ps)).1 k in
      elim (Option-cases (last_value k (sort ps))) [
        | inl gone ↦ let none_left = rw gone at merged in cc
        | inr (w, last) ↦
            let left = rw last at merged in
            let same : w ≡ v = ground (arith, e, left) in
            (
              (Perm.mem_iff (std.same_pairs ps)).0 (last_value-Mem k v (sort ps) (rw same at last)),
              λ h. ground (arith, e, left, same),
            )
      ]

  -- For a sort that meets the contract, a key that has one value throughout has that value after a
  -- merge, or is gone if it marks a deletion.
  pub deduplicate-sort_settled :
      (k v : ℕ)
      → Mem (pair k v) ps
      → ((w : ℕ) → Mem (pair k w) ps → w ≡ v)
      → lookup k (deduplicate (sort ps)) ≡ live (some v)
  deduplicate-sort_settled k v m one =
      let merged = (deduplicate-last_value (sort ps) (std.sorted ps)).1 k in
      elim (Option-cases (last_value k (sort ps))) [
        | inl gone ↦
            absurd (last_value-none k v (sort ps) gone ((Perm.mem_iff (std.same_pairs ps)).1 m))
        | inr (w, last) ↦
            let same : w ≡ v =
              one w ((Perm.mem_iff (std.same_pairs ps)).0 (last_value-Mem k w (sort ps) last)) in
            rw (merged, last, same)
      ]

-- An insertion sort. With `stable` a pair is put before its equals, and without behind them; as the
-- sort runs from the right end, the first keeps the order of equal keys and the second turns it round.
unfoldable pub insert_pair : Bool → KeyValuePair → List KeyValuePair → List KeyValuePair
insert_pair stable p [] = p ∷ []
insert_pair stable p (q ∷ qs) =
    if (if stable then lt64 q.key p.key else le64 q.key p.key)
    then q ∷ insert_pair stable p qs
    else p ∷ q ∷ qs

unfoldable pub insertion_sort : Bool → List KeyValuePair → List KeyValuePair
insertion_sort stable [] = []
insertion_sort stable (p ∷ ps) = insert_pair stable p (insertion_sort stable ps)

insert_pair-IsSorted :
    (stable : Bool) (p : KeyValuePair) (lo : ℕ) (qs : List KeyValuePair)
    → lo ≤ rank p.key
    → IsSorted lo qs
    → IsSorted lo (insert_pair stable p qs)
unfolding insert_pair
insert_pair-IsSorted stable p lo [] l s = (l, tt)
insert_pair-IsSorted true p lo (q ∷ qs) l s =
    ground (arith, insert_pair-IsSorted true p (rank q.key) qs)
insert_pair-IsSorted false p lo (q ∷ qs) l s =
    ground (arith, insert_pair-IsSorted false p (rank q.key) qs)

insertion_sort-IsSorted :
    (stable : Bool) (ps : List KeyValuePair) → IsSorted 0 (insertion_sort stable ps)
unfolding insertion_sort
insertion_sort-IsSorted stable [] = tt
insertion_sort-IsSorted stable (p ∷ ps) =
    insert_pair-IsSorted stable p 0 (insertion_sort stable ps) (omega arith)
      (insertion_sort-IsSorted stable ps)

insert_pair-Perm :
    (stable : Bool) (p : KeyValuePair) (qs : List KeyValuePair)
    → Perm (insert_pair stable p qs) (p ∷ qs)
unfolding insert_pair
insert_pair-Perm stable p [] = Perm.refl (p ∷ [])
insert_pair-Perm stable p (q ∷ qs) =
    elim (Bool-cases (if stable then lt64 q.key p.key else le64 q.key p.key)) [
      | inl e ↦ rw e (Perm.trans (Perm.cons q (insert_pair-Perm stable p qs)) (Perm.swap p q qs))
      | inr e ↦ rw e (Perm.refl (p ∷ q ∷ qs))
    ]

insertion_sort-Perm : (stable : Bool) (ps : List KeyValuePair) → Perm (insertion_sort stable ps) ps
unfolding insertion_sort
insertion_sort-Perm stable [] = Perm.refl []
insertion_sort-Perm stable (p ∷ ps) =
    Perm.trans (insert_pair-Perm stable p (insertion_sort stable ps))
      (Perm.cons p (insertion_sort-Perm stable ps))

pub insertion_sort-IsSort : (stable : Bool) → IsSort (insertion_sort stable)
insertion_sort-IsSort stable = record {
  sorted = insertion_sort-IsSorted stable;
  same_pairs = insertion_sort-Perm stable;
}

-- The contract of `std::sort` does not make a merge keep the newer of two values: for any key with two
-- values there is a sort that meets it under which the older one survives (or, where the older one
-- marks a deletion, the key is lost).
pub deduplicate-IsSort_older :
    (k old new : ℕ)
    → (sort : List KeyValuePair → List KeyValuePair) × IsSort sort
      × (lookup k (deduplicate (sort (pair k old ∷ pair k new ∷ []))) ≡ live (some old))
unfolding deduplicate insertion_sort insert_pair lookup
deduplicate-IsSort_older k old new =
    (insertion_sort false, insertion_sort-IsSort false, ground arith)
