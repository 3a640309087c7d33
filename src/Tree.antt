-- ===== src/Tree.antt =====
-- `LSMTree` of include/lsm_tree.h and src/lsm_tree.cpp. The two global settings of
-- include/constants.h are fields of the state, and so is the store of the run files. Of the mutex only
-- the lock that `put` holds is modelled, and the debug log and the measured times are not. A call
-- returns how it ended and the tree after it.
pub mod Compact
pub mod Access
pub mod Upkeep
pub mod Bulk
pub mod Startup
pub mod Stats
pub mod Holds
pub mod Splits
pub mod Tiering
pub mod Preserved
pub mod Leveling
pub mod Sinks
pub mod FlushMerges
pub mod FullMerges
pub mod FlushKeeps
pub mod Moved
pub mod Moves
pub mod Merge
pub mod Frame
pub mod Get
pub mod Names
pub mod Put
pub mod Refines
pub mod Flush
pub mod Deepest
pub mod Ended
pub mod Termination
pub mod Versions
pub mod Range
pub mod Full
use cs.Prelude.{
  ℕ, zero, suc, ◌+◌, ◌-◌, ◌*◌, List, [], ◌∷◌, ◌++◌, Bool, true, false, not, ◌&&◌, Option, none,
  some, ltb, leb, ◌==◌, if◌then◌else◌, length, get_elem?, set, is_empty,
}
use cs.Int64.{tombstone, le64}
use cs.Result.{Result, ok, err, Error, out_of_bounds, deadlock, or_fail}
use cs.Pair.{KeyValuePair, decode}
use cs.Double.{Doubles, one_double, four_double}
use cs.SkipList
use cs.SkipList.{SkipList}
use cs.Compaction.{deduplicate, unique}
use cs.Store
use cs.Store.{Store}
use cs.Run
use cs.Run.{Run, pair_size}
use cs.Level
use cs.Level.{Level, CompactionStrategy, tiering, lazy_leveling, leveling, tiering_threshold}

pub record LsmTree : Type 0 where
  pub buffer : SkipList
  pub levels : List Level
  pub max_level : ℕ
  pub buffer_size_bytes : ℕ
  pub compaction_enabled : Bool
  pub read_count : ℕ
  pub write_count : ℕ
  pub store : Store
  -- The thread holds `tree_mutex`.
  pub locked : Bool

abbrev pub TreeAction {ℓ} : Type ℓ → Type ℓ
TreeAction A = LsmTree → Result A × LsmTree

abbrev pub continue {ℓ κ} :
    {A : Type ℓ} {B : Type κ} → Result A × LsmTree → (A → TreeAction B) → Result B × LsmTree
continue (err e, t) rest = (err e, t)
continue (ok a, t) rest = rest a t

infixl 5 ◌>>=◌ ◌>>◌
abbrev pub ◌>>=◌ {ℓ κ} :
    {A : Type ℓ} {B : Type κ} → TreeAction A → (A → TreeAction B) → TreeAction B
◌>>=◌ m f t = continue (m t) f

abbrev pub ◌>>◌ {ℓ} : {B : Type ℓ} → TreeAction (Unit {0}) → TreeAction B → TreeAction B
earlier >> later = earlier >>= λ _. later

abbrev pub return {ℓ} : {A : Type ℓ} → A → TreeAction A
return a t = (ok a, t)

abbrev pub modify : (LsmTree → LsmTree) → TreeAction (Unit {0})
modify f t = (ok tt, f t)

abbrev stored {ℓ} : {A : Type ℓ} → LsmTree → Result A × Store → Result A × LsmTree
stored t (r, s) = (r, record t { store = s })

abbrev pub on_store {ℓ} : {A : Type ℓ} → Store.Action A → TreeAction A
on_store m t = stored t (m t.store)

-- `levels[i]`, undefined past the end.
abbrev pub level_at : ℕ → TreeAction Level
level_at i t = (or_fail (get_elem? t.levels i) out_of_bounds, t)

abbrev pub set_level : ℕ → Level → TreeAction (Unit {0})
set_level i l = modify (λ t. record t { levels = set t.levels i l })

-- `levels[i]->add_run(...)`
unfoldable pub add_run_at : ℕ → Run → TreeAction (Unit {0})
add_run_at i r = do l ← level_at i; set_level i (Level.add_run l r)

-- `levels[i]->clear_runs()`
unfoldable pub clear_level : ℕ → TreeAction (Unit {0})
clear_level i = do l ← level_at i; l' ← on_store (Level.clear_runs l); set_level i l'

module _ (d : Doubles) where
  unfoldable pub calculate_fpr_for_level : ℕ → ℕ → ℕ
  calculate_fpr_for_level max_level level =
      let fpr = d.div one_double (d.pow four_double (d.of_diff max_level level)) in
      if level == 0 then one_double else if d.lt one_double fpr then one_double else fpr

  -- `while (level < max_level && size_bytes > level_capacity)`, with the number of levels that are
  -- left.
  unfoldable pub target_level_loop : ℕ → ℕ → ℕ → ℕ → ℕ
  target_level_loop zero size_bytes level capacity = level
  target_level_loop (suc left) size_bytes level capacity =
      let next = target_level_loop left size_bytes (level + 1) (d.mul capacity four_double) in
      if d.lt capacity (d.of_size size_bytes) then next else level

  unfoldable pub get_target_level_for_size : LsmTree → ℕ → ℕ
  unfolding target_level_loop
  get_target_level_for_size t size_bytes =
      target_level_loop (t.max_level - 1) size_bytes 1
        (d.mul (d.of_size t.buffer_size_bytes) four_double)

  -- `rebuild_filters`, which takes `tree_mutex` again where `put` holds it: a run that cannot be
  -- rebuilt ends it.
  unfoldable pub rebuild_runs : ℕ → List Run → Store.Action (List Run)
  rebuild_runs fpr [] = Store.return []
  rebuild_runs fpr (r ∷ rs) =
      Store.◌>>=◌ (Run.rebuild_bloom_filter d r fpr)
        (λ r'. Store.◌>>=◌ (rebuild_runs fpr rs) (λ rs'. Store.return (r' ∷ rs')))

  unfoldable pub rebuild_levels : ℕ → ℕ → List Level → Store.Action (List Level)
  unfolding calculate_fpr_for_level rebuild_runs
  rebuild_levels max_level i [] = Store.return []
  rebuild_levels max_level i (l ∷ ls) =
      Store.◌>>=◌ (rebuild_runs (calculate_fpr_for_level max_level i) l.runs) (λ rs.
        Store.◌>>=◌ (rebuild_levels max_level (i + 1) ls)
          (λ ls'. Store.return (record l { runs = rs } ∷ ls')))

  unfoldable pub rebuild_filters : TreeAction (Unit {0})
  unfolding rebuild_levels
  rebuild_filters t =
      if t.locked
      then (err deadlock, t)
      else continue (on_store (rebuild_levels t.max_level 0 t.levels) t)
          (λ ls. modify (λ t'. record t' { levels = ls }))

  -- `!levels.empty() && levels.back()->run_count() > 0`
  abbrev pub back_has_runs : List Level → Bool
  back_has_runs [] = false
  back_has_runs (l ∷ []) = ltb 0 (Level.run_count l)
  back_has_runs (l ∷ m ∷ ls) = back_has_runs (m ∷ ls)

  abbrev pub extended : LsmTree → LsmTree
  extended t = record t {
    levels =
        t.levels ++ record { level_number = t.max_level + 1; strategy = leveling; runs = [] } ∷ [];
    max_level = t.max_level + 1;
  }

  unfoldable pub check_and_extend_levels : TreeAction (Unit {0})
  unfolding rebuild_filters
  check_and_extend_levels t =
      if back_has_runs t.levels then rebuild_filters (extended t) else (ok tt, t)
