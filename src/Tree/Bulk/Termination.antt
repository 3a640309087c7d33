-- ===== src/Tree/Bulk/Termination.antt =====
-- `bulk_load_file` comes to its end.
use cs.Prelude.{
  ℕ, zero, suc, ◌+◌, ◌*◌, ◌/◌, ◌≡◌, refl, List, [], ◌∷◌, true, false, Option-cases, Bool-cases, inl,
  inr, length, get_elem?, take, drop, ◌==◌,
}
use cs.Result.{Result, ok, err, is_exception}
use cs.Pair.{KeyValuePair, decode}
use cs.Double.{Doubles}
use cs.Store.{FileName}
use cs.Run.{pair_size}
use cs.Run.Ended.{ended}
use cs.Level
use cs.Tree.{LsmTree}
use cs.Tree.Compact.{append_run}
use cs.Tree.Ended.{Keeps-end, Keeps-append_run, ended-then}
use cs.Tree.Upkeep.{set_buffer_size, set_compaction_enabled}
use cs.Tree.Upkeep.Termination.{ended-compact}
use cs.Tree.Bulk.{
  bulk_run, distribute, distribute_all, put_remaining, level_data, highest_used_level, pair_count,
  sorted_pairs, bulk_load, bulk_load_file, restored,
}

module _ (d : Doubles) (sort : List KeyValuePair → List KeyValuePair) where
  ended-bulk_run :
      (level : ℕ) (ps : List KeyValuePair) (t : LsmTree)
      → ended (bulk_run d sort level ps t).0 ≡ true
  unfolding bulk_run
  ended-bulk_run level [] t = refl
  ended-bulk_run level (p ∷ ps) t = elim (Option-cases (get_elem? t.levels level)) [
    | inl e ↦ rw e refl
    | inr (l, e) ↦ rw e (
        Keeps-end (length t.levels) (append_run d sort (p ∷ ps) level (Level.run_count l) t)
          (Keeps-append_run d sort (p ∷ ps) level (Level.run_count l) t))
  ]

  ended-distribute :
      (level pairs_per_mb : ℕ) (mbs : List ℕ) (ps : List KeyValuePair) (t : LsmTree)
      → ended (distribute d sort level pairs_per_mb mbs ps t).0 ≡ true
  unfolding distribute
  ended-distribute level pairs_per_mb [] ps t = refl
  ended-distribute level pairs_per_mb (mb ∷ mbs) ps t =
      let n = pair_count d pairs_per_mb mb ps in
      ended-then (bulk_run d sort level (take n ps) t) _ (ended-bulk_run level (take n ps) t)
        (λ u t₁. ended-distribute (level + 1) pairs_per_mb mbs (drop n ps) t₁)

  ended-put_remaining :
      (level : ℕ) (ps : List KeyValuePair) (t : LsmTree)
      → ended (put_remaining d sort level ps t).0 ≡ true
  ended-put_remaining zero ps t = refl
  ended-put_remaining (suc level) ps t = ended-bulk_run (suc level) ps t

  ended-distribute_all :
      (size_mb : ℕ) (ps : List KeyValuePair) (t : LsmTree)
      → ended (distribute_all d sort size_mb ps t).0 ≡ true
  unfolding distribute_all
  ended-distribute_all size_mb ps t = elim (Bool-cases (size_mb == 0)) [
    | inl nothing ↦ rw nothing refl
    | inr some_mb ↦
        let mbs = level_data d t.max_level size_mb in
        rw some_mb (
          ended-then (distribute d sort 1 (length ps / size_mb) mbs ps t)
            (put_remaining d sort (highest_used_level d mbs))
            (ended-distribute 1 (length ps / size_mb) mbs ps t)
            (λ rest t₁. ended-put_remaining (highest_used_level d mbs) rest t₁))
  ]

  ended-bulk_load :
      (filepath : FileName) (t : LsmTree) → ended (bulk_load d sort filepath t).0 ≡ true
  unfolding bulk_load set_buffer_size set_compaction_enabled
  ended-bulk_load filepath t = elim (Option-cases (t.store.disk filepath)) [
    | inl e ↦ rw e refl
    | inr (content, e) ↦ rw e (
        ended-then
          (distribute_all d sort (length (decode content) * pair_size / (1024 * 1024))
            (sorted_pairs d sort (decode content))
            (record t {
              buffer_size_bytes = 100 * 1024 * 1024;
              compaction_enabled = false;
              locked = true;
            }))
          _ (ended-distribute_all _ _ _)
          (λ u t₁. ended-compact d sort (record t₁ { locked = false; compaction_enabled = true })))
  ]

  restored-ended :
      (t : LsmTree) (x : Result (Unit {0}) × LsmTree)
      → ended x.0 ≡ true
      → ended (restored d sort t x).0 ≡ true
  restored-ended t (ok u, t') h = refl
  restored-ended t (err e, t') h = elim (Bool-cases (is_exception e)) [
    | inl thrown ↦ rw thrown h
    | inr fatal ↦ rw fatal h
  ]

  -- A bulk load ends, with a result, an error of the program or its self-deadlock, and so does the
  -- compaction at its end: the bounds on its loops are not reached.
  pub ended-bulk_load_file :
      (filepath : FileName) (t : LsmTree) → ended (bulk_load_file d sort filepath t).0 ≡ true
  unfolding bulk_load_file
  ended-bulk_load_file filepath t =
      restored-ended t (bulk_load d sort filepath t) (ended-bulk_load filepath t)
