-- ===== src/Tree/Termination.antt =====
-- `perform_compaction` comes to its end: a compaction starts another one of a deeper level only.
use cs.Prelude.{
  ℕ, zero, suc, ◌+◌, ◌*◌, ◌≡◌, ◌<◌, refl, sym, List, true, Bool-cases, Option-cases, inl, inr,
  if◌then◌else◌, is_empty, length, ◌==◌, arith, get_elem?, ltb, leb,
}
use cs.Result.{ok}
use cs.Pair.{KeyValuePair}
use cs.Double.{Doubles}
use cs.SkipList
use cs.Compaction.{deduplicate}
use cs.Run.{pair_size}
use cs.Run.Ended.{ended}
use cs.Level
use cs.Level.{
  Level, CompactionStrategy, tiering, lazy_leveling, leveling, delete_all, tiering_threshold,
}
use cs.Tree.{LsmTree, TreeAction, on_store, level_at, clear_level, get_target_level_for_size}
use cs.Tree.Compact.{
  collect, append_run, compact_if_due, move_down, tier_down, compact_tiering, sink, in_place,
  compact_leveling, by_strategy, compact_level, perform_compaction, compact_if_enabled, flush_pairs,
  flush_buffer,
}
use cs.Tree.Ended.{
  Keeps-ended, Keeps-end, ended-either, ended-then, Keeps-on_store, Keeps-level_at,
  Keeps-clear_level, ended-collect, get_elem?-length, Keeps-append_run, ended-extend_if_used,
}

module _ (d : Doubles) (sort : List KeyValuePair → List KeyValuePair) where
  -- Compactions of the levels behind `level`, on trees with `n` levels, come to an end.
  module _ (next : ℕ → TreeAction (Unit {0})) (level n : ℕ)
      (ends : (i : ℕ) (t : LsmTree)
        → level < i
        → i < n
        → length t.levels ≡ n
        → ended (next i t).0 ≡ true) where
    ended-compact_if_due :
        (i : ℕ) (t : LsmTree)
        → level < i
        → length t.levels ≡ n
        → ended (compact_if_due d sort next i t).0 ≡ true
    unfolding Level.needs_compaction
    ended-compact_if_due i t h e = elim (Option-cases (get_elem? t.levels i)) [
      | inl none_there ↦ rw none_there refl
      | inr (l, there) ↦
          let inside : i < n = omega (arith, get_elem?-length t.levels i l there) in
          rw there (elim (Bool-cases (Level.is_due l.strategy (length l.runs))) [
            | inl due ↦ rw due (ends i t h inside e)
            | inr calm ↦ rw calm refl
          ])
    ]

    ended-move_down :
        (ps : List KeyValuePair) (target run_id : ℕ) (t : LsmTree)
        → level < target
        → length t.levels ≡ n
        → ended (move_down d sort next ps level target run_id t).0 ≡ true
    ended-move_down ps target run_id t h e =
        Keeps-ended n (append_run d sort ps target run_id t) _
          (rw (sym e) (Keeps-append_run d sort ps target run_id t))
          (λ u t₁ e₁.
            Keeps-ended n (clear_level level t₁) _ (rw (sym e₁) (Keeps-clear_level level t₁))
              (λ v t₂ e₂. ended-compact_if_due target t₂ h e₂))

    ended-tier_down :
        (ps : List KeyValuePair) (t : LsmTree)
        → length t.levels ≡ n
        → ended (tier_down d sort next ps level t).0 ≡ true
    ended-tier_down ps t e =
        Keeps-ended n (level_at (level + 1) t) _ (rw (sym e) (Keeps-level_at (level + 1) t))
          (λ l t₁ e₁. elim (Bool-cases (is_empty ps)) [
            | inl gone ↦
                rw gone
                  (Keeps-end n (clear_level level t₁) (rw (sym e₁) (Keeps-clear_level level t₁)))
            | inr left ↦
                rw left (ended-move_down ps (level + 1) (Level.run_count l) t₁ (omega arith) e₁)
          ])

    ended-compact_tiering :
        (ps : List KeyValuePair) (count : ℕ) (t : LsmTree)
        → length t.levels ≡ n
        → ended (compact_tiering d sort next ps level count t).0 ≡ true
    unfolding compact_tiering
    ended-compact_tiering ps count t e = elim (Bool-cases (leb tiering_threshold count)) [
      | inl full ↦ rw full (
          ended-then (tier_down d sort next ps level t) _ (ended-tier_down ps t e)
            (λ u t₁. ended-extend_if_used d sort (level + 1) t₁))
      | inr calm ↦ rw calm (ended-extend_if_used d sort (level + 1) t)
    ]

    ended-sink :
        (ps : List KeyValuePair) (target : ℕ) (t : LsmTree)
        → level < target
        → length t.levels ≡ n
        → ended (sink d sort next ps level target t).0 ≡ true
    ended-sink ps target t h e =
        Keeps-ended n (level_at target t) _ (rw (sym e) (Keeps-level_at target t))
          (λ l t₁ e₁. ended-move_down ps target (Level.run_count l) t₁ h e₁)

    ended-in_place :
        (ps : List KeyValuePair) (t : LsmTree)
        → length t.levels ≡ n
        → ended (in_place d sort next ps level t).0 ≡ true
    ended-in_place ps t e =
        Keeps-ended n (clear_level level t) _ (rw (sym e) (Keeps-clear_level level t)) (λ u t₁ e₁.
          Keeps-end n (append_run d sort ps level 0 t₁)
            (rw (sym e₁) (Keeps-append_run d sort ps level 0 t₁)))

    ended-compact_leveling :
        (ps : List KeyValuePair) (t : LsmTree)
        → length t.levels ≡ n
        → ended (compact_leveling d sort next ps level t).0 ≡ true
    unfolding compact_leveling
    ended-compact_leveling ps t e =
        let target = get_target_level_for_size d t (length ps * pair_size) in
        ended-then
          ((if is_empty ps
              then clear_level level
              else if ltb level target
              then sink d sort next ps level target
              else in_place d sort next ps level)
            t)
          _ (moved target) (λ u t₁. ended-extend_if_used d sort level t₁)
      where
        moved :
            (target : ℕ)
            → ended
                ((if is_empty ps
                    then clear_level level
                    else if ltb level target
                    then sink d sort next ps level target
                    else in_place d sort next ps level)
                  t).0
              ≡ true
        moved target = elim (Bool-cases (is_empty ps)) [
          | inl gone ↦
              rw gone (Keeps-end n (clear_level level t) (rw (sym e) (Keeps-clear_level level t)))
          | inr left ↦ rw left (elim (Bool-cases (ltb level target)) [
            | inl deeper ↦ rw deeper (ended-sink ps target t (ground arith) e)
            | inr here ↦ rw here (ended-in_place ps t e)
          ])
        ]

    ended-by_strategy :
        (c : CompactionStrategy) (ps : List KeyValuePair) (count : ℕ) (t : LsmTree)
        → length t.levels ≡ n
        → ended (by_strategy d sort next c ps level count t).0 ≡ true
    ended-by_strategy tiering ps count t e = ended-compact_tiering ps count t e
    ended-by_strategy lazy_leveling ps count t e = ended-compact_leveling ps t e
    ended-by_strategy leveling ps count t e = ended-compact_leveling ps t e

    ended-compact_level :
        (t : LsmTree) → length t.levels ≡ n → ended (compact_level d sort next level t).0 ≡ true
    unfolding compact_level
    ended-compact_level t e =
        Keeps-ended n (level_at level t) _ (rw (sym e) (Keeps-level_at level t)) (λ l t₁ e₁.
          Keeps-ended n (on_store (collect l.runs) t₁) _
            (rw (sym e₁) (Keeps-on_store (collect l.runs) t₁ (ended-collect l.runs t₁.store)))
            (λ ps t₂ e₂. elim (Bool-cases (is_empty ps)) [
              | inl gone ↦ rw gone refl
              | inr left ↦
                  rw left
                    (ended-by_strategy l.strategy (deduplicate (sort ps)) (length l.runs) t₂ e₂)
            ]))

  -- With more rounds than there are levels from `level` on, `perform_compaction` ends, with a result,
  -- an error of the program or its self-deadlock: the bound on its recursion is not reached.
  pub ended-perform_compaction :
      (fuel level : ℕ) (t : LsmTree)
      → length t.levels < fuel + level
      → 0 < fuel
      → ended (perform_compaction d sort fuel level t).0 ≡ true
  unfolding perform_compaction
  ended-perform_compaction zero level t h p = elim p [ ]
  ended-perform_compaction (suc fuel) level t h p =
      ended-either t.compaction_enabled
        (compact_level d sort (perform_compaction d sort fuel) level t) (ok tt, t)
        (ended-compact_level (perform_compaction d sort fuel) level (length t.levels)
          (λ i t' deeper inside e.
            ended-perform_compaction fuel i t' (omega (arith, e)) (omega arith))
          t refl)
        refl

  ended-compact_if_enabled : (t : LsmTree) → ended (compact_if_enabled d sort t).0 ≡ true
  ended-compact_if_enabled t =
      let next = perform_compaction d sort (length t.levels) in
      ended-either t.compaction_enabled (compact_if_due d sort next 1 t) (ok tt, t)
        (ended-compact_if_due next 0 (length t.levels)
          (λ i t' positive inside e.
            ended-perform_compaction (length t.levels) i t' (omega arith) (omega arith))
          1 t (omega arith) refl)
        refl

  ended-flush_pairs :
      (ps : List KeyValuePair) (t : LsmTree) → ended (flush_pairs d sort ps t).0 ≡ true
  ended-flush_pairs ps t =
      Keeps-ended (length t.levels) (level_at 1 t) _ (Keeps-level_at 1 t) (λ l t₁ e.
        Keeps-ended (length t₁.levels) (append_run d sort ps 1 (Level.run_count l) t₁) _
          (Keeps-append_run d sort ps 1 (Level.run_count l) t₁)
          (λ u t₂ e'. ended-compact_if_enabled (record t₂ { buffer = SkipList.empty })))

  -- `flush_buffer` ends, with a result, an error of the program or its self-deadlock, and so do the
  -- compactions that it starts: the bound on their recursion is not reached.
  pub ended-flush_buffer : (t : LsmTree) → ended (flush_buffer d sort t).0 ≡ true
  unfolding flush_buffer
  ended-flush_buffer t =
      ended-either (t.buffer.num_elements == 0) (ok tt, t)
        (flush_pairs d sort (SkipList.get_all_sorted t.buffer) t) refl
        (ended-flush_pairs (SkipList.get_all_sorted t.buffer) t)
