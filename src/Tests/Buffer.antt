-- ===== src/Tests/Buffer.antt =====
-- Examples on the buffer and on the merging of pairs.
use mathlib.Core.List.{Mem, mem-cons, mem-cons_self, not-mem-nil}
use mathlib.Core.Logic.Or
use mathlib.Core.HLevel.{⊥_prop}
use cs.Prelude.{ℕ, ◌+◌, ◌≡◌, refl, ap, inl, inr, Bool-cases, List, [], ◌∷◌, some, true, ◌==◌, arith}
use cs.Int64.{rank, tombstone, put64, read64, read64-put64}
use cs.Pair.{KeyValuePair, lookup}
use cs.Compaction.{deduplicate}
use cs.Compaction.Sorting.{pair, insertion_sort, insertion_sort-IsSort, deduplicate-sort_settled}
use cs.SkipList.{
  SkipList, insert, empty, find_predecessors, descend, walk, insert_at, node, estimate_pair_size,
}
use cs.SkipList.Contents.{IsValid}
use cs.SkipList.Insert.{IsInsertion, insert-IsInsertion}

-- What the insertions of (9, 90) and (4, 40) with the heights 4 and 3 leave.
abbrev pub filled : SkipList
filled = record {
  nodes = node 4 40 3 ∷ node 9 90 4 ∷ [];
  current_size = estimate_pair_size 3 + estimate_pair_size 4;
  num_elements = 2;
}

filled-inserted : insert (insert empty 9 90 3) 4 40 2 ≡ filled
unfolding insert insert_at find_predecessors descend walk empty rank
filled-inserted = refl

pub filled-IsValid : IsValid filled
unfolding rank
filled-IsValid = record {
  climbs = (omega arith, (omega arith, tt));
  linked = (omega arith, (omega arith, tt));
  counted = refl;
}

insert-IsInsertion_example : IsInsertion 9 91 filled (insert filled 9 91 1)
insert-IsInsertion_example = insert-IsInsertion filled 9 91 1 filled-IsValid

-- Sorted pairs with two values of a key and a deletion.
abbrev merged : List KeyValuePair
merged = pair 3 30 ∷ pair 3 31 ∷ pair 5 50 ∷ pair 5 tombstone ∷ []

abbrev shuffled : List KeyValuePair
shuffled = pair 5 50 ∷ pair 3 30 ∷ []

only_50 : (w : ℕ) → Mem (pair 5 w) shuffled → w ≡ 50
only_50 w m = elim (Bool-cases (w == 50)) [
  | inl e ↦ ground arith
  | inr e ↦ absurd (
      Or.elim ⊥_prop (mem-cons.0 m)
        (λ h. let v : w ≡ 50 = ap (λ (q : KeyValuePair). q.value) h in ground arith)
        (λ later.
          Or.elim ⊥_prop (mem-cons.0 later)
            (λ h. let k : 5 ≡ 3 = ap (λ (q : KeyValuePair). q.key) h in omega arith)
            (λ end. not-mem-nil end)))
]

kept : lookup 5 (deduplicate (insertion_sort true shuffled)) ≡ some 50
kept =
    deduplicate-sort_settled (insertion_sort true) (insertion_sort-IsSort true) shuffled 5 50
      mem-cons_self only_50

read64-put64_example : read64 (put64 300 (7 ∷ [])) ≡ some (300, 7 ∷ [])
read64-put64_example = read64-put64 300 (7 ∷ []) (omega arith)
