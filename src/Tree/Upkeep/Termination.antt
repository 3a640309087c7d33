-- ===== src/Tree/Upkeep/Termination.antt =====
-- `compact` and `bulk_load_file` come to their ends.
use cs.Prelude.{
  ℕ, zero, suc, ◌+◌, ◌≡◌, ◌≤◌, refl, List, true, false, Option-cases, Bool-cases, inl, inr, length,
  arith, get_elem?, ltb,
}
use cs.Result.{Result, ok, err}
use cs.Pair.{KeyValuePair}
use cs.Double.{Doubles}
use cs.Run.Ended.{ended}
use cs.Level
use cs.Level.{Level}
use cs.Tree.{LsmTree, TreeAction, continue}
use cs.Tree.Compact.{compact_if_due, perform_compaction}
use cs.Tree.Access.{released}
use cs.Tree.Termination.{ended-perform_compaction}
use cs.Tree.Upkeep.{compact_from, compact}
use cs.Tree.Upkeep.Locked.{IsFixed, Fixes, Fixes-compact_if_due, Fixes-perform_compaction}

-- A step that ends, and after which the rest of the loop ends too.
then-ended :
    (n : ℕ) (x : Result (Unit {0}) × LsmTree) (f : Unit {0} → TreeAction (Unit {0}))
    → ended x.0 ≡ true
    → Fixes n x
    → ((u : Unit {0}) (t : LsmTree) → IsFixed n t → ended (f u t).0 ≡ true)
    → ended (continue x f).0 ≡ true
then-ended n (ok u, t) f h g k = k u t g
then-ended n (err e, t) f h g k = h

module _ (d : Doubles) (sort : List KeyValuePair → List KeyValuePair) where
  ended-compact_if_due :
      (i : ℕ) (t : LsmTree)
      → ended (compact_if_due d sort (perform_compaction d sort (length t.levels + 1)) i t).0 ≡ true
  unfolding Level.needs_compaction
  ended-compact_if_due i t = elim (Option-cases (get_elem? t.levels i)) [
    | inl none_there ↦ rw none_there refl
    | inr (l, there) ↦ rw there (elim (Bool-cases (Level.is_due l.strategy (length l.runs))) [
      | inl due ↦
          rw due
            (ended-perform_compaction d sort (length t.levels + 1) i t (omega arith) (omega arith))
      | inr calm ↦ rw calm refl
    ])
  ]

  ended-compact_from :
      (fuel i n : ℕ) (t : LsmTree)
      → IsFixed n t
      → n ≤ fuel + i
      → ended (compact_from d sort fuel i t).0 ≡ true
  unfolding compact_from
  ended-compact_from zero i n t h enough =
      let past : ltb i (length t.levels) ≡ false = ground (arith, h.0, enough) in rw past refl
  ended-compact_from (suc fuel) i n t h enough = elim (Bool-cases (ltb i (length t.levels))) [
    | inr past ↦ rw past refl
    | inl inside ↦ rw inside (
        then-ended n (compact_if_due d sort (perform_compaction d sort (length t.levels + 1)) i t) _
          (ended-compact_if_due i t)
          (Fixes-compact_if_due d sort n (perform_compaction d sort (length t.levels + 1))
            (Fixes-perform_compaction d sort n (length t.levels + 1)) i t h)
          (λ u t₁ h₁. ended-compact_from fuel (i + 1) n t₁ h₁ (omega arith)))
  ]

  released-ended :
      (x : Result (Unit {0}) × LsmTree) → ended x.0 ≡ true → ended (released x).0 ≡ true
  released-ended (r, t) h = h

  -- A compaction on request ends, with a result, an error of the program or its self-deadlock: the bound on
  -- the loop over the levels, which are as many at its end as at its start, is not reached.
  pub ended-compact : (t : LsmTree) → ended (compact d sort t).0 ≡ true
  unfolding compact
  ended-compact t =
      released-ended (compact_from d sort (length t.levels) 0 (record t { locked = true })) (
        ended-compact_from (length t.levels) 0 (length t.levels) (record t { locked = true })
          (refl, refl) (omega arith))
