-- ===== src/Tree/Moved.antt =====
-- What the tree holds after pairs went from a level to a deeper one.
use cs.Prelude.{
  ℕ, suc, ◌+◌, ◌≡◌, ◌≢◌, ◌<◌, sym, ap, ◌∙◌, List, [], ◌∷◌, ◌++◌, false, arith, length, is_empty,
}
use cs.Pair.{KeyValuePair, Fits, Ascends}
use cs.Double.{Doubles}
use cs.Bloom.{optimal_bits}
use cs.Store.{Store}
use cs.Run.{Run, data_filename}
use cs.Run.Holds.{Holds}
use cs.Run.Rights.{create-writable}
use cs.Run.Create.{IsAllowed, create-Holds}
use cs.Level
use cs.Level.{Level}
use cs.Tree.{LsmTree, TreeAction, calculate_fpr_for_level}
use cs.Tree.Compact.{compact_if_due, move_down}
use cs.Tree.Holds.{RunsHold, LevelsHold}
use cs.Tree.Names.{LevelsNamed, RunsNamed-snoc, RunsHold-snoc}
use cs.Tree.Frame.{
  SameFile, Holds-SameFile, RunsHold-SameFile, LevelsHold-SameFile, OnlyFilesOf-SameFile,
  delete_all-SameFile,
}
use cs.Tree.Splits.{LevelsHold-append, LevelsHold-split, LevelsNamed-append, LevelsNamed-split}
use cs.Tree.Moves.{cleared, moved, move_down_lem}

module _ (d : Doubles) (sort : List KeyValuePair → List KeyValuePair)
    (next : ℕ → TreeAction (Unit {0})) (t : LsmTree) (above : List Level) (l : Level)
    (mid : List Level) (m : Level) (deeper : List Level) (apsss : List (List (List KeyValuePair)))
    (pss : List (List KeyValuePair)) (mids : List (List (List KeyValuePair)))
    (tss : List (List KeyValuePair)) (rest : List (List (List KeyValuePair)))
    (ps : List KeyValuePair) where
  abbrev a : ℕ
  a = length above

  abbrev b : ℕ
  b = length above + suc (length mid)

  -- The files of all runs but those of the level that is cleared are the same, and the new run is there.
  module _ (s : Store) (r : Run)
      (same : (i j : ℕ) → a ≢ i → ¬ ((b ≡ i) × (length m.runs ≡ j)) → SameFile t.store s i j)
      (new : RunsHold s (r ∷ []) (ps ∷ []))
      (own_name : r.filename ≡ data_filename b (length m.runs)) where
    moved-LevelsHold :
        length apsss ≡ length above
        → length mids ≡ length mid
        → LevelsHold t.store
            (above ++ l ∷ (mid ++ m ∷ deeper))
            (apsss ++ pss ∷ (mids ++ tss ∷ rest))
        → LevelsNamed 0 (above ++ l ∷ (mid ++ m ∷ deeper))
        → LevelsHold s
            (above ++ cleared l ∷ (mid ++ Level.add_run m r ∷ deeper))
            (apsss ++ [] ∷ (mids ++ (tss ++ ps ∷ []) ∷ rest))
    unfolding Level.add_run
    moved-LevelsHold e e' h named =
        let (h₀, h₁) =
          LevelsHold-split t.store above (l ∷ (mid ++ m ∷ deeper)) apsss
            (pss ∷ (mids ++ tss ∷ rest)) e h in
        let (h₂, h₃) = LevelsHold-split t.store mid (m ∷ deeper) mids (tss ∷ rest) e' h₁.1 in
        let (n₀, n₁) = LevelsNamed-split 0 a above (l ∷ (mid ++ m ∷ deeper)) (omega arith) named in
        let (n₂, n₃) = LevelsNamed-split (suc a) b mid (m ∷ deeper) (omega arith) n₁.1 in
        LevelsHold-append s above (cleared l ∷ (mid ++ Level.add_run m r ∷ deeper)) apsss
          ([] ∷ (mids ++ (tss ++ ps ∷ []) ∷ rest))
          (LevelsHold-SameFile t.store s 0 above apsss
            (λ i j x y. same i j (λ z. omega arith) (λ z. omega (arith, z.0))) n₀ h₀)
          (
            tt,
            LevelsHold-append s mid (Level.add_run m r ∷ deeper) mids ((tss ++ ps ∷ []) ∷ rest)
                (LevelsHold-SameFile t.store s (suc a) mid mids
                  (λ i j x y. same i j (λ z. omega arith) (λ z. omega (arith, z.0))) n₂ h₂)
                (
                  RunsHold-snoc s m.runs tss r ps
                      (RunsHold-SameFile t.store s b 0 m.runs tss
                        (λ j x y. same b j (λ z. omega arith) (λ z. omega (arith, z.1))) n₃.0 h₃.0)
                      new.0,
                  LevelsHold-SameFile t.store s (suc b) deeper rest
                      (λ i j x y. same i j (λ z. omega arith) (λ z. omega (arith, z.0))) n₃.1 h₃.1,
                ),
          )

    moved-LevelsNamed :
        LevelsNamed 0 (above ++ l ∷ (mid ++ m ∷ deeper))
        → LevelsNamed 0 (above ++ cleared l ∷ (mid ++ Level.add_run m r ∷ deeper))
    unfolding Level.add_run
    moved-LevelsNamed named =
        let (n₀, n₁) = LevelsNamed-split 0 a above (l ∷ (mid ++ m ∷ deeper)) (omega arith) named in
        let (n₂, n₃) = LevelsNamed-split (suc a) b mid (m ∷ deeper) (omega arith) n₁.1 in
        let z : length m.runs ≡ 0 + length m.runs = omega arith in
        LevelsNamed-append 0 a above (cleared l ∷ (mid ++ Level.add_run m r ∷ deeper)) (omega arith)
          n₀
          (
            tt,
            LevelsNamed-append (suc a) b mid (Level.add_run m r ∷ deeper) (omega arith) n₂
                (RunsNamed-snoc b 0 m.runs r n₃.0 (own_name ∙ ap (data_filename b) z), n₃.1),
          )

  -- The pairs are written as a new run of the deeper level, and the other level is emptied.
  pub move_down-Holds :
      length apsss ≡ length above
      → length mids ≡ length mid
      → LevelsHold t.store (above ++ l ∷ (mid ++ m ∷ deeper)) (apsss ++ pss ∷ (mids ++ tss ∷ rest))
      → LevelsNamed 0 (above ++ l ∷ (mid ++ m ∷ deeper))
      → is_empty ps ≡ false
      → Fits ps
      → Ascends 0 ps
      → 0
        < optimal_bits d
            (length ps)
            (calculate_fpr_for_level d t.max_level (length above + suc (length mid)))
      → IsAllowed t.store (data_filename (length above + suc (length mid)) (length m.runs))
      → (r : Run) × (s : Store) × (move_down d sort next ps
            (length above)
            (length above + suc (length mid))
            (length m.runs)
            (record t { levels = above ++ l ∷ (mid ++ m ∷ deeper) })
          ≡ compact_if_due d sort next
              (length above + suc (length mid))
              (moved d sort next t above l mid m deeper r s))
        × LevelsHold s
            (moved d sort next t above l mid m deeper r s).levels
            (apsss ++ [] ∷ (mids ++ (tss ++ ps ∷ []) ∷ rest))
        × LevelsNamed 0 (moved d sort next t above l mid m deeper r s).levels
        × (s.writable ≡ t.store.writable)
  unfolding moved
  move_down-Holds e e' h named some_pairs fits ascends bits allowed =
      let fpr = calculate_fpr_for_level d t.max_level b in
      let (r, s₁, made, new, own_name, only, w) =
        create-Holds d ps b (length m.runs) fpr t.store some_pairs fits ascends bits allowed in
      let rights : s₁.writable ≡ t.store.writable =
        ap (λ x. x.1.writable) (sym made) ∙ create-writable d ps b (length m.runs) fpr t.store in
      let own = (LevelsNamed-split 0 a above (l ∷ (mid ++ m ∷ deeper)) (omega arith) named).1.0 in
      let (s₂, gone, rights', w', kept) = delete_all-SameFile a 0 l.runs s₁ own in
      let same = λ (i j : ℕ) (x : a ≢ i) (y : ¬ ((b ≡ i) × (length m.runs ≡ j))).
        kept i j x ∙ OnlyFilesOf-SameFile t.store s₁ b (length m.runs) i j only y in
      let there : Holds s₂ r ps =
        Holds-SameFile s₁ s₂ b (length m.runs) r ps (kept b (length m.runs) (λ z. omega arith))
          own_name new in
      (
        r,
        s₂,
        move_down_lem d sort next t above l mid m deeper ps r s₁ s₂ made gone,
        moved-LevelsHold s₂ r same (there, tt) own_name e e' h named,
        moved-LevelsNamed s₂ r same (there, tt) own_name named,
        rights' ∙ rights,
      )
