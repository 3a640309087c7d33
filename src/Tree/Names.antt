-- ===== src/Tree/Names.antt =====
-- The runs of a tree are named after their level and their place in it, so a new run overwrites none.
use cs.Prelude.{ℕ, suc, ◌+◌, ◌≡◌, ◌<◌, ◌≤◌, sym, ap, ◌∙◌, List, [], ◌∷◌, ◌++◌, arith, length}
use cs.Pair.{KeyValuePair}
use cs.Store.{Store}
use cs.Run.{Run, data_filename}
use cs.Run.Holds.{Holds}
use cs.Run.Create.{OnlyFilesOf}
use cs.Run.Names.{same_name-data_filename}
use cs.Level.{Level}
use cs.Tree.Holds.{RunsHold, LevelsHold}

abbrev pub RunsNamed : ℕ → ℕ → List Run → Type 0
RunsNamed i j [] = Unit
RunsNamed i j (r ∷ rs) = (r.filename ≡ data_filename i j) × RunsNamed i (suc j) rs

abbrev pub LevelsNamed : ℕ → List Level → Type 0
LevelsNamed i [] = Unit
LevelsNamed i (l ∷ ls) = RunsNamed i 0 l.runs × LevelsNamed (suc i) ls

pub RunsNamed-snoc :
    (i j : ℕ) (rs : List Run) (r : Run)
    → RunsNamed i j rs
    → r.filename ≡ data_filename i (j + length rs)
    → RunsNamed i j (rs ++ r ∷ [])
RunsNamed-snoc i j [] r h e = let z : j + 0 ≡ j = omega arith in (e ∙ ap (data_filename i) z, tt)
RunsNamed-snoc i j (q ∷ rs) r h e =
    let z : j + suc (length rs) ≡ suc j + length rs = omega arith in
    (h.0, RunsNamed-snoc i (suc j) rs r h.1 (e ∙ ap (data_filename i) z))

pub RunsHold-snoc :
    (s : Store) (rs : List Run) (pss : List (List KeyValuePair)) (r : Run) (ps : List KeyValuePair)
    → RunsHold s rs pss
    → Holds s r ps
    → RunsHold s (rs ++ r ∷ []) (pss ++ ps ∷ [])
RunsHold-snoc s [] [] r ps h x = (x, tt)
RunsHold-snoc s [] (qs ∷ pss) r ps h x = absurd h
RunsHold-snoc s (q ∷ rs) [] r ps h x = absurd h
RunsHold-snoc s (q ∷ rs) (qs ∷ pss) r ps h x = (h.0, RunsHold-snoc s rs pss r ps h.1 x)

-- The files of run `n` of level `m` are written, and the run `r` has another level or place.
module _ (s s' : Store) (m n : ℕ) (only : OnlyFilesOf (data_filename m n) s s') where
  Holds-written :
      (i j : ℕ) (r : Run) (ps : List KeyValuePair)
      → r.filename ≡ data_filename i j
      → ¬ ((m ≡ i) × (n ≡ j))
      → Holds s r ps
      → Holds s' r ps
  Holds-written i j r ps e apart h =
      let (own, bloom, fence) = same_name-data_filename m n i j apart in
      let at = λ (x : Store). ap x.disk (sym e) in
      record {
        stored = sym (at s') ∙ only (data_filename i j) own bloom fence ∙ at s ∙ h.stored;
        fits = h.fits;
        ascending = h.ascending;
        counted = h.counted;
        filtered = h.filtered;
        indexed = h.indexed;
      }

  pub RunsHold-written :
      (i j : ℕ) (rs : List Run) (pss : List (List KeyValuePair))
      → RunsNamed i j rs
      → ((k : ℕ) → j ≤ k → k < j + length rs → ¬ ((m ≡ i) × (n ≡ k)))
      → RunsHold s rs pss
      → RunsHold s' rs pss
  RunsHold-written i j [] [] e apart h = tt
  RunsHold-written i j [] (ps ∷ pss) e apart h = h
  RunsHold-written i j (r ∷ rs) [] e apart h = h
  RunsHold-written i j (r ∷ rs) (ps ∷ pss) e apart h = (
    Holds-written i j r ps e.0 (apart j (omega arith) (omega arith)) h.0,
    RunsHold-written i (suc j) rs pss e.1 (λ k a b. apart k (omega arith) (omega arith)) h.1,
  )

  -- All levels behind level `m`.
  pub LevelsHold-written :
      (i : ℕ) (ls : List Level) (psss : List (List (List KeyValuePair)))
      → m < i
      → LevelsNamed i ls
      → LevelsHold s ls psss
      → LevelsHold s' ls psss
  LevelsHold-written i [] [] b e h = tt
  LevelsHold-written i [] (pss ∷ psss) b e h = h
  LevelsHold-written i (l ∷ ls) [] b e h = h
  LevelsHold-written i (l ∷ ls) (pss ∷ psss) b e h = (
    RunsHold-written i 0 l.runs pss e.0 (λ k a c same. absurd (omega (arith, same.0))) h.0,
    LevelsHold-written (suc i) ls psss (omega arith) e.1 h.1,
  )
