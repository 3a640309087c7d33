-- ===== src/Tree/Ended.antt =====
-- Steps of the tree that keep the number of its levels and end with a value or an error of the program.
use cs.Prelude.{
  ℕ, zero, suc, ◌+◌, ◌≡◌, ◌<◌, refl, sym, ◌∙◌, List, [], ◌∷◌, Bool, true, false, some, Option-cases,
  inl, inr, if◌then◌else◌, length, arith, get_elem?, length-set,
}
use cs.Result.{deadlock, Result, ok, err}
use cs.Pair.{KeyValuePair}
use cs.Double.{Doubles}
use cs.Store.{Store, Action}
use cs.Run
use cs.Run.{Run, pair_size}
use cs.Run.Ended.{
  is_real, ended, ended-continue, ended-create, ended-get_all_pairs, ended-rebuild_bloom_filter,
}
use cs.Level
use cs.Level.{
  Level, CompactionStrategy, tiering, lazy_leveling, leveling, delete_all, tiering_threshold,
}
use cs.Tree.{
  LsmTree, TreeAction, continue, on_store, level_at, add_run_at, clear_level, rebuild_runs,
  rebuild_levels, rebuild_filters, check_and_extend_levels, extended, calculate_fpr_for_level,
}
use cs.Tree.Compact.{collect, append_run, extend_if_used}

pub get_elem?-length {ℓ} :
    {A : Type ℓ} (xs : List A) (i : ℕ) (x : A) → get_elem? xs i ≡ some x → i < length xs
get_elem?-length [] i x e = cc
get_elem?-length (y ∷ xs) zero x e = omega arith
get_elem?-length (y ∷ xs) (suc i) x e = omega (arith, get_elem?-length xs i x e)

-- A step that leaves the number of levels as it is, or ends in an error of the program.
abbrev pub Keeps {ℓ} : {A : Type ℓ} → ℕ → Result A × LsmTree → Type 0
Keeps n (ok a, t) = length t.levels ≡ n
Keeps n (err e, t) = is_real e ≡ true

-- What follows such a step.
pub Keeps-ended {ℓ κ} :
    {A : Type ℓ} {B : Type κ} (n : ℕ) (x : Result A × LsmTree) (f : A → TreeAction B)
    → Keeps n x
    → ((a : A) (t : LsmTree) → length t.levels ≡ n → ended (f a t).0 ≡ true)
    → ended (continue x f).0 ≡ true
Keeps-ended n (ok a, t) f h g = g a t h
Keeps-ended n (err e, t) f h g = h

pub Keeps-end {ℓ} : {A : Type ℓ} (n : ℕ) (x : Result A × LsmTree) → Keeps n x → ended x.0 ≡ true
Keeps-end n (ok a, t) h = refl
Keeps-end n (err e, t) h = h

pub ended-either {ℓ} :
    {A : Type ℓ} (b : Bool) (x y : Result A × LsmTree)
    → ended x.0 ≡ true
    → ended y.0 ≡ true
    → ended (if b then x else y).0 ≡ true
ended-either true x y h g = h
ended-either false x y h g = g

Keeps-continue {ℓ κ} :
    {A : Type ℓ} {B : Type κ} (n : ℕ) (x : Result A × LsmTree) (f : A → TreeAction B)
    → Keeps n x
    → ((a : A) (t : LsmTree) → length t.levels ≡ n → Keeps n (f a t))
    → Keeps n (continue x f)
Keeps-continue n (ok a, t) f h g = g a t h
Keeps-continue n (err e, t) f h g = h

pub ended-then {ℓ κ} :
    {A : Type ℓ} {B : Type κ} (x : Result A × LsmTree) (f : A → TreeAction B)
    → ended x.0 ≡ true
    → ((a : A) (t : LsmTree) → ended (f a t).0 ≡ true)
    → ended (continue x f).0 ≡ true
ended-then (ok a, t) f h g = g a t
ended-then (err e, t) f h g = h

pub Keeps-on_store {ℓ} :
    {A : Type ℓ} (m : Action A) (t : LsmTree)
    → ended (m t.store).0 ≡ true
    → Keeps (length t.levels) (on_store m t)
Keeps-on_store {A = A} m t h = go (m t.store) h
  where
    go : (x : Result A × Store) → ended x.0 ≡ true → Keeps (length t.levels) (on_store (λ _. x) t)
    go (ok a, s) h = refl
    go (err e, s) h = h

pub Keeps-level_at : (i : ℕ) (t : LsmTree) → Keeps (length t.levels) (level_at i t)
Keeps-level_at i t = elim (Option-cases (get_elem? t.levels i)) [
  | inl e ↦ rw e refl
  | inr (l, e) ↦ rw e refl
]

pub ended-collect : (rs : List Run) (s : Store) → ended (collect rs s).0 ≡ true
unfolding collect
ended-collect [] s = refl
ended-collect (r ∷ rs) s =
    ended-continue (Run.get_all_pairs r s) _ (ended-get_all_pairs r s)
      (λ ps s₁. ended-continue (collect rs s₁) _ (ended-collect rs s₁) (λ qs s₂. refl))

ended-delete_all : (rs : List Run) (s : Store) → ended (delete_all rs s).0 ≡ true
unfolding delete_all Run.delete_files_from_disk
ended-delete_all [] s = refl
ended-delete_all (r ∷ rs) s = ended-delete_all rs _

ended-clear_runs : (l : Level) (s : Store) → ended (Level.clear_runs l s).0 ≡ true
unfolding Level.clear_runs
ended-clear_runs l s =
    ended-continue (delete_all l.runs s) _ (ended-delete_all l.runs s) (λ u s₁. refl)

pub Keeps-clear_level : (i : ℕ) (t : LsmTree) → Keeps (length t.levels) (clear_level i t)
unfolding clear_level
Keeps-clear_level i t =
    Keeps-continue (length t.levels) (level_at i t) _ (Keeps-level_at i t) (λ l t₁ e.
      Keeps-continue (length t.levels) (on_store (Level.clear_runs l) t₁) _
        (rw (sym e) (Keeps-on_store (Level.clear_runs l) t₁ (ended-clear_runs l t₁.store)))
        (λ l' t₂ e'. length-set t₂.levels i l' ∙ e'))

module _ (d : Doubles) (sort : List KeyValuePair → List KeyValuePair) where
  pub Keeps-append_run :
      (ps : List KeyValuePair) (level run_id : ℕ) (t : LsmTree)
      → Keeps (length t.levels) (append_run d sort ps level run_id t)
  unfolding append_run add_run_at
  Keeps-append_run ps level run_id t =
      Keeps-continue (length t.levels)
        (on_store (Run.create d ps level run_id (calculate_fpr_for_level d t.max_level level)) t) _
        (Keeps-on_store (Run.create d ps level run_id (calculate_fpr_for_level d t.max_level level))
          t (ended-create d ps level run_id _ t.store))
        (λ r t₁ e.
          Keeps-continue (length t.levels) (level_at level t₁) _
            (rw (sym e) (Keeps-level_at level t₁))
            (λ l t₂ e'. length-set t₂.levels level (Level.add_run l r) ∙ e'))

  ended-rebuild_runs :
      (fpr : ℕ) (rs : List Run) (s : Store) → ended (rebuild_runs d fpr rs s).0 ≡ true
  unfolding rebuild_runs
  ended-rebuild_runs fpr [] s = refl
  ended-rebuild_runs fpr (r ∷ rs) s =
      ended-continue (Run.rebuild_bloom_filter d r fpr s) _ (ended-rebuild_bloom_filter d r fpr s)
        (λ r' s₁.
          ended-continue (rebuild_runs d fpr rs s₁) _ (ended-rebuild_runs fpr rs s₁)
            (λ rs' s₂. refl))

  ended-rebuild_levels :
      (max_level i : ℕ) (ls : List Level) (s : Store)
      → ended (rebuild_levels d max_level i ls s).0 ≡ true
  unfolding rebuild_levels
  ended-rebuild_levels max_level i [] s = refl
  ended-rebuild_levels max_level i (l ∷ ls) s =
      let fpr = calculate_fpr_for_level d max_level i in
      ended-continue (rebuild_runs d fpr l.runs s) _ (ended-rebuild_runs fpr l.runs s) (λ rs s₁.
        ended-continue (rebuild_levels d max_level (i + 1) ls s₁) _
          (ended-rebuild_levels max_level (i + 1) ls s₁) (λ ls' s₂. refl))

  ended-rebuild_filters : (t : LsmTree) → ended (rebuild_filters d t).0 ≡ true
  unfolding rebuild_filters
  ended-rebuild_filters t =
      ended-either t.locked (err deadlock, t) _ refl
        (Keeps-ended (length t.levels) (on_store (rebuild_levels d t.max_level 0 t.levels) t) _
          (Keeps-on_store (rebuild_levels d t.max_level 0 t.levels) t
            (ended-rebuild_levels t.max_level 0 t.levels t.store))
          (λ ls t₁ e. refl))

  pub ended-extend_if_used : (i : ℕ) (t : LsmTree) → ended (extend_if_used d sort i t).0 ≡ true
  unfolding extend_if_used check_and_extend_levels
  ended-extend_if_used i t = ground (arith, ended-rebuild_filters (extended d t))
