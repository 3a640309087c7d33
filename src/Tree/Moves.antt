-- ===== src/Tree/Moves.antt =====
-- The steps of `perform_compaction` on a level: a new run is made, and the runs of a level are deleted.
use cs.Prelude.{ℕ, suc, ◌+◌, ◌≡◌, ap, ◌∙◌, List, [], ◌∷◌, ◌++◌, some, length, get_elem?, set}
use cs.Result.{ok}
use cs.Pair.{KeyValuePair}
use cs.Double.{Doubles}
use cs.Store.{Store}
use cs.Run
use cs.Run.{Run, data_filename}
use cs.Level
use cs.Level.{Level, delete_all}
use cs.Tree.{LsmTree, TreeAction, clear_level, add_run_at, calculate_fpr_for_level}
use cs.Tree.Compact.{append_run, compact_if_due, move_down}
use cs.Tree.Splits.{get_elem?-middle, set-middle, get_elem?-behind, set-behind}

-- The level without its runs.
abbrev pub cleared : Level → Level
cleared l = record l { runs = [] }

pub clear_level_lem :
    (a : ℕ) (l : Level) (t : LsmTree) (s : Store)
    → get_elem? t.levels a ≡ some l
    → delete_all l.runs t.store ≡ (ok tt, s)
    → clear_level a t ≡ (ok tt, record t { levels = set t.levels a (cleared l); store = s })
unfolding clear_level Level.clear_runs
clear_level_lem a l t s there e = rw (there, e)

module _ (d : Doubles) (sort : List KeyValuePair → List KeyValuePair) where
  pub append_run_lem :
      (ps : List KeyValuePair) (b n : ℕ) (m : Level) (r : Run) (t : LsmTree) (s : Store)
      → get_elem? t.levels b ≡ some m
      → Run.create d ps b n (calculate_fpr_for_level d t.max_level b) t.store ≡ (ok r, s)
      → append_run d sort ps b n t
        ≡ (ok tt, record t { levels = set t.levels b (Level.add_run m r); store = s })
  unfolding append_run add_run_at
  append_run_lem ps b n m r t s there e = rw (e, there)

  -- A tree in which a level is picked out, and a deeper one.
  module _ (next : ℕ → TreeAction (Unit {0})) (t : LsmTree) (above : List Level) (l : Level)
      (mid : List Level) (m : Level) (deeper : List Level) where
    abbrev a : ℕ
    a = length above

    abbrev b : ℕ
    b = length above + suc (length mid)

    abbrev before : LsmTree
    before = record t { levels = above ++ l ∷ (mid ++ m ∷ deeper) }

    unfoldable pub moved : Run → Store → LsmTree
    moved r s = record t {
      levels = above ++ cleared l ∷ (mid ++ Level.add_run m r ∷ deeper);
      store = s;
    }

    pub target_there :
        (x y : Level)
        → get_elem? (above ++ x ∷ (mid ++ y ∷ deeper)) (length above + suc (length mid)) ≡ some y
    target_there x y =
        get_elem?-behind above (suc (length mid)) (x ∷ (mid ++ y ∷ deeper))
        ∙ get_elem?-middle mid y deeper

    target_set :
        (x y z : Level)
        → set (above ++ x ∷ (mid ++ y ∷ deeper)) (length above + suc (length mid)) z
          ≡ above ++ x ∷ (mid ++ z ∷ deeper)
    target_set x y z =
        set-behind above (suc (length mid)) z (x ∷ (mid ++ y ∷ deeper))
        ∙ ap (λ ls. above ++ x ∷ ls) (set-middle mid y z deeper)

    -- The pairs go to a new run of the deeper level, and the runs of the other one are deleted.
    pub move_down_lem :
        (ps : List KeyValuePair) (r : Run) (s₁ s₂ : Store)
        → Run.create d ps b (length m.runs) (calculate_fpr_for_level d t.max_level b) t.store
          ≡ (ok r, s₁)
        → delete_all l.runs s₁ ≡ (ok tt, s₂)
        → move_down d sort next ps a b (length m.runs) before
          ≡ compact_if_due d sort next b (moved r s₂)
    unfolding moved
    move_down_lem ps r s₁ s₂ made gone =
        let longer = above ++ l ∷ (mid ++ Level.add_run m r ∷ deeper) in
        let grown : LsmTree = record t { levels = longer; store = s₁ } in
        let appended =
          append_run_lem ps b (length m.runs) m r before s₁ (target_there l m) made
          ∙ ap (λ ls. (ok tt, record t { levels = ls; store = s₁ }))
              (target_set l m (Level.add_run m r)) in
        let emptied =
          clear_level_lem a l grown s₂
            (get_elem?-middle above l (mid ++ Level.add_run m r ∷ deeper)) gone
          ∙ ap (λ ls. (ok tt, record t { levels = ls; store = s₂ }))
              (set-middle above l (cleared l) (mid ++ Level.add_run m r ∷ deeper)) in
        rw (appended, emptied)
