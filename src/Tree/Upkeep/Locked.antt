-- ===== src/Tree/Upkeep/Locked.antt =====
-- Where the thread holds the lock, no compaction adds a level.
use cs.Prelude.{
  ℕ, zero, suc, ◌+◌, ◌*◌, ◌≡◌, ◌∙◌, List, Bool, true, false, Option-cases, Bool-cases, inl, inr,
  if◌then◌else◌, length, get_elem?, length-set, is_empty, ltb, leb, ◌==◌,
}
use cs.Result.{Result, ok, err}
use cs.Pair.{KeyValuePair}
use cs.Double.{Doubles}
use cs.Compaction.{deduplicate}
use cs.Store.{Store, Action}
use cs.Run
use cs.Run.{Run, pair_size}
use cs.Level
use cs.Level.{Level, CompactionStrategy, tiering, lazy_leveling, leveling, tiering_threshold}
use cs.Tree.{
  LsmTree, TreeAction, continue, on_store, level_at, set_level, add_run_at, clear_level,
  rebuild_filters, check_and_extend_levels, back_has_runs, calculate_fpr_for_level,
  get_target_level_for_size,
}
use cs.Tree.Compact.{
  collect, append_run, extend_if_used, compact_if_due, move_down, tier_down, compact_tiering, sink,
  in_place, compact_leveling, by_strategy, compact_level, perform_compaction,
}

-- A tree with so many levels, whose lock is held.
abbrev pub IsFixed : ℕ → LsmTree → Type 0
IsFixed n t = (length t.levels ≡ n) × (t.locked ≡ true)

-- A step that ends in such a tree, or in an error.
abbrev pub Fixes {ℓ} : {A : Type ℓ} → ℕ → Result A × LsmTree → Type 0
Fixes n (ok a, t) = IsFixed n t
Fixes n (err e, t) = Unit

pub Fixes-continue {ℓ κ} :
    {A : Type ℓ} {B : Type κ} (n : ℕ) (x : Result A × LsmTree) (f : A → TreeAction B)
    → Fixes n x
    → ((a : A) (t : LsmTree) → IsFixed n t → Fixes n (f a t))
    → Fixes n (continue x f)
Fixes-continue n (ok a, t) f h g = g a t h
Fixes-continue n (err e, t) f h g = tt

Fixes-either {ℓ} :
    {A : Type ℓ} (n : ℕ) (b : Bool) (x y : Result A × LsmTree)
    → Fixes n x
    → Fixes n y
    → Fixes n (if b then x else y)
Fixes-either n true x y h g = h
Fixes-either n false x y h g = g

Fixes-on_store {ℓ} :
    {A : Type ℓ} (n : ℕ) (m : Action A) (t : LsmTree) → IsFixed n t → Fixes n (on_store m t)
Fixes-on_store {A = A} n m t h = go (m t.store)
  where
    go : (x : Result A × Store) → Fixes n (on_store (λ _. x) t)
    go (ok a, s) = h
    go (err e, s) = tt

Fixes-level_at : (n i : ℕ) (t : LsmTree) → IsFixed n t → Fixes n (level_at i t)
Fixes-level_at n i t h = elim (Option-cases (get_elem? t.levels i)) [
  | inl e ↦ rw e tt
  | inr (l, e) ↦ rw e h
]

Fixes-set_level : (n i : ℕ) (l : Level) (t : LsmTree) → IsFixed n t → Fixes n (set_level i l t)
Fixes-set_level n i l t h = (length-set t.levels i l ∙ h.0, h.1)

Fixes-clear_level : (n i : ℕ) (t : LsmTree) → IsFixed n t → Fixes n (clear_level i t)
unfolding clear_level
Fixes-clear_level n i t h = Fixes-continue n (level_at i t) _ (Fixes-level_at n i t h) (λ l t₁ h₁.
    Fixes-continue n (on_store (Level.clear_runs l) t₁) _
      (Fixes-on_store n (Level.clear_runs l) t₁ h₁) (λ l' t₂ h₂. Fixes-set_level n i l' t₂ h₂))

module _ (d : Doubles) (sort : List KeyValuePair → List KeyValuePair) (n : ℕ) where
  Fixes-append_run :
      (ps : List KeyValuePair) (level run_id : ℕ) (t : LsmTree)
      → IsFixed n t
      → Fixes n (append_run d sort ps level run_id t)
  unfolding append_run add_run_at
  Fixes-append_run ps level run_id t h =
      let create = Run.create d ps level run_id (calculate_fpr_for_level d t.max_level level) in
      Fixes-continue n (on_store create t) _ (Fixes-on_store n create t h) (λ r t₁ h₁.
        Fixes-continue n (level_at level t₁) _ (Fixes-level_at n level t₁ h₁)
          (λ l t₂ h₂. Fixes-set_level n level (Level.add_run l r) t₂ h₂))

  Fixes-check_and_extend_levels :
      (t : LsmTree) → IsFixed n t → Fixes n (check_and_extend_levels d t)
  unfolding check_and_extend_levels rebuild_filters
  Fixes-check_and_extend_levels t h = elim (Bool-cases (back_has_runs d t.levels)) [
    | inl used ↦ rw (used, h.1) tt
    | inr free ↦ rw free h
  ]

  Fixes-extend_if_used : (i : ℕ) (t : LsmTree) → IsFixed n t → Fixes n (extend_if_used d sort i t)
  unfolding extend_if_used
  Fixes-extend_if_used i t h = elim (Bool-cases (i == t.max_level)) [
    | inl last ↦ rw last (
        Fixes-continue n (level_at i t) _ (Fixes-level_at n i t h) (λ l t₁ h₁.
          elim (Bool-cases (ltb 0 (Level.run_count l))) [
            | inl used ↦ rw used (Fixes-check_and_extend_levels t₁ h₁)
            | inr free ↦ rw free h₁
          ]))
    | inr inner ↦ rw inner h
  ]

  module _ (next : ℕ → TreeAction (Unit {0}))
      (fixes : (i : ℕ) (t : LsmTree) → IsFixed n t → Fixes n (next i t)) where
    pub Fixes-compact_if_due :
        (i : ℕ) (t : LsmTree) → IsFixed n t → Fixes n (compact_if_due d sort next i t)
    unfolding Level.needs_compaction
    Fixes-compact_if_due i t h =
        Fixes-continue n (level_at i t) _ (Fixes-level_at n i t h) (λ l t₁ h₁.
          elim (Bool-cases (Level.is_due l.strategy (length l.runs))) [
            | inl due ↦ rw due (fixes i t₁ h₁)
            | inr calm ↦ rw calm h₁
          ])

    Fixes-move_down :
        (ps : List KeyValuePair) (level target run_id : ℕ) (t : LsmTree)
        → IsFixed n t
        → Fixes n (move_down d sort next ps level target run_id t)
    Fixes-move_down ps level target run_id t h =
        Fixes-continue n (append_run d sort ps target run_id t) _
          (Fixes-append_run ps target run_id t h)
          (λ u t₁ h₁.
            Fixes-continue n (clear_level level t₁) _ (Fixes-clear_level n level t₁ h₁)
              (λ v t₂ h₂. Fixes-compact_if_due target t₂ h₂))

    Fixes-tier_down :
        (ps : List KeyValuePair) (level : ℕ) (t : LsmTree)
        → IsFixed n t
        → Fixes n (tier_down d sort next ps level t)
    Fixes-tier_down ps level t h =
        Fixes-continue n (level_at (level + 1) t) _ (Fixes-level_at n (level + 1) t h) (λ l t₁ h₁.
          elim (Bool-cases (is_empty ps)) [
            | inl gone ↦ rw gone (Fixes-clear_level n level t₁ h₁)
            | inr left ↦ rw left (Fixes-move_down ps level (level + 1) (Level.run_count l) t₁ h₁)
          ])

    Fixes-compact_tiering :
        (ps : List KeyValuePair) (level count : ℕ) (t : LsmTree)
        → IsFixed n t
        → Fixes n (compact_tiering d sort next ps level count t)
    unfolding compact_tiering
    Fixes-compact_tiering ps level count t h = elim (Bool-cases (leb tiering_threshold count)) [
      | inl full ↦ rw full (
          Fixes-continue n (tier_down d sort next ps level t) _ (Fixes-tier_down ps level t h)
            (λ u t₁ h₁. Fixes-extend_if_used (level + 1) t₁ h₁))
      | inr calm ↦ rw calm (Fixes-extend_if_used (level + 1) t h)
    ]

    Fixes-sink :
        (ps : List KeyValuePair) (level target : ℕ) (t : LsmTree)
        → IsFixed n t
        → Fixes n (sink d sort next ps level target t)
    Fixes-sink ps level target t h =
        Fixes-continue n (level_at target t) _ (Fixes-level_at n target t h)
          (λ l t₁ h₁. Fixes-move_down ps level target (Level.run_count l) t₁ h₁)

    Fixes-in_place :
        (ps : List KeyValuePair) (level : ℕ) (t : LsmTree)
        → IsFixed n t
        → Fixes n (in_place d sort next ps level t)
    Fixes-in_place ps level t h =
        Fixes-continue n (clear_level level t) _ (Fixes-clear_level n level t h)
          (λ u t₁ h₁. Fixes-append_run ps level 0 t₁ h₁)

    Fixes-compact_leveling :
        (ps : List KeyValuePair) (level : ℕ) (t : LsmTree)
        → IsFixed n t
        → Fixes n (compact_leveling d sort next ps level t)
    unfolding compact_leveling
    Fixes-compact_leveling ps level t h =
        let target = get_target_level_for_size d t (length ps * pair_size) in
        elim (Bool-cases (is_empty ps)) [
          | inl gone ↦ rw gone (settled (clear_level level t) (Fixes-clear_level n level t h))
          | inr left ↦ rw left (elim (Bool-cases (ltb level target)) [
            | inl deeper ↦
                rw deeper
                  (settled (sink d sort next ps level target t) (Fixes-sink ps level target t h))
            | inr here ↦
                rw here (settled (in_place d sort next ps level t) (Fixes-in_place ps level t h))
          ])
        ]
      where
        settled :
            (x : Result (Unit {0}) × LsmTree)
            → Fixes n x
            → Fixes n (continue x (λ u. extend_if_used d sort level))
        settled x g = Fixes-continue n x _ g (λ u t₁ h₁. Fixes-extend_if_used level t₁ h₁)

    Fixes-by_strategy :
        (c : CompactionStrategy) (ps : List KeyValuePair) (level count : ℕ) (t : LsmTree)
        → IsFixed n t
        → Fixes n (by_strategy d sort next c ps level count t)
    Fixes-by_strategy tiering ps level count t h = Fixes-compact_tiering ps level count t h
    Fixes-by_strategy lazy_leveling ps level count t h = Fixes-compact_leveling ps level t h
    Fixes-by_strategy leveling ps level count t h = Fixes-compact_leveling ps level t h

    Fixes-compact_level :
        (level : ℕ) (t : LsmTree) → IsFixed n t → Fixes n (compact_level d sort next level t)
    unfolding compact_level
    Fixes-compact_level level t h =
        Fixes-continue n (level_at level t) _ (Fixes-level_at n level t h) (λ l t₁ h₁.
          Fixes-continue n (on_store (collect l.runs) t₁) _
            (Fixes-on_store n (collect l.runs) t₁ h₁)
            (λ ps t₂ h₂. elim (Bool-cases (is_empty ps)) [
              | inl gone ↦ rw gone h₂
              | inr left ↦
                  rw left (
                    Fixes-by_strategy l.strategy (deduplicate (sort ps)) level (length l.runs) t₂
                      h₂)
            ]))

  -- A compaction of a tree whose lock is held keeps the number of levels, or ends in an error: the thread
  -- would wait for itself before it added one.
  pub Fixes-perform_compaction :
      (fuel level : ℕ) (t : LsmTree)
      → IsFixed n t
      → Fixes n (perform_compaction d sort fuel level t)
  unfolding perform_compaction
  Fixes-perform_compaction zero level t h = tt
  Fixes-perform_compaction (suc fuel) level t h =
      Fixes-either n t.compaction_enabled
        (compact_level d sort (perform_compaction d sort fuel) level t) (ok tt, t)
        (Fixes-compact_level (perform_compaction d sort fuel) (Fixes-perform_compaction fuel) level
          t h)
        h
