-- ===== src/Tree/Bulk/Settings.antt =====
-- What `bulk_load_file` does to the settings, and which files it cannot load.
use cs.Prelude.{
  ℕ, ◌*◌, ◌/◌, ◌<◌, ◌≡◌, refl, List, true, false, some, arith, length, ◌==◌, Bool-cases, inl, inr,
}
use cs.Result.{Result, ok, err, is_exception, division_by_zero}
use cs.Pair.{KeyValuePair, decode}
use cs.Double.{Doubles}
use cs.Store.{FileName}
use cs.Run.{pair_size}
use cs.Tree.{LsmTree}
use cs.Tree.Bulk.{bulk_load, bulk_load_file, distribute_all, restored}

-- The end of a call that leaves a settled tree: of the value and of every exception.
abbrev pub Settles : LsmTree → Result (Unit {0}) × LsmTree → Type 0
Settles t (ok done, t') = t'.buffer_size_bytes ≡ t.buffer_size_bytes
Settles t (err e, t') =
    is_exception e ≡ true
    → (t'.buffer_size_bytes ≡ t.buffer_size_bytes)
      × (t'.compaction_enabled ≡ t.compaction_enabled)
      × (t'.locked ≡ false)

module _ (d : Doubles) (sort : List KeyValuePair → List KeyValuePair) where
  -- A file of fewer pairs than make a megabyte ends the process by a division by zero.
  pub bulk_load_file_small :
      (filepath : FileName) (t : LsmTree) (content : List ℕ)
      → t.store.disk filepath ≡ some content
      → length (decode content) * pair_size < 1024 * 1024
      → (bulk_load_file d sort filepath t).0 ≡ err division_by_zero
  unfolding bulk_load_file bulk_load distribute_all
  bulk_load_file_small filepath t content e h =
      let none_mb : (length (decode content) * pair_size / (1024 * 1024) == 0) ≡ true =
        ground arith in
      rw (e, none_mb) refl

  restored-Settles :
      (t : LsmTree) (x : Result (Unit {0}) × LsmTree) → Settles t (restored d sort t x)
  restored-Settles t (ok done, t') = refl
  restored-Settles t (err e, t') = elim (Bool-cases (is_exception e)) [
    | inl thrown ↦ rw thrown (λ h. (refl, refl, refl))
    | inr fatal ↦ rw fatal (λ h. cc)
  ]

  -- Where a bulk load ends with an exception, the size of the buffer and the setting of the compaction are
  -- what they were before, and the lock is free; where it succeeds, the size of the buffer is.
  pub bulk_load_file-Settles :
      (filepath : FileName) (t : LsmTree) → Settles t (bulk_load_file d sort filepath t)
  unfolding bulk_load_file
  bulk_load_file-Settles filepath t = restored-Settles t (bulk_load d sort filepath t)
