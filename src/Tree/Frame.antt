-- ===== src/Tree/Frame.antt =====
-- What the levels hold depends on the data files under their names only.
use cs.Prelude.{
  ℕ, suc, ◌+◌, ◌≡◌, ◌≢◌, ◌<◌, ◌≤◌, refl, sym, ap, ◌∙◌, List, [], ◌∷◌, arith, length, Bool,
}
use cs.Result.{ok}
use cs.Pair.{KeyValuePair}
use cs.Store.{FileName, Store, same_name}
use cs.Run
use cs.Run.{Run, data_filename, bloom_filename, fence_filename}
use cs.Run.Holds.{Holds}
use cs.Run.Create.{OnlyFilesOf}
use cs.Run.Names.{same_name-data_filename}
use cs.Level.{Level, delete_all}
use cs.Tree.Holds.{RunsHold, LevelsHold}
use cs.Tree.Names.{RunsNamed, LevelsNamed}

-- The data file of run `j` of level `i` is the same.
abbrev pub SameFile : Store → Store → ℕ → ℕ → Type 0
SameFile s s' i j = s'.disk (data_filename i j) ≡ s.disk (data_filename i j)

pub Holds-SameFile :
    (s s' : Store) (i j : ℕ) (r : Run) (ps : List KeyValuePair)
    → SameFile s s' i j
    → r.filename ≡ data_filename i j
    → Holds s r ps
    → Holds s' r ps
Holds-SameFile s s' i j r ps x e h =
    let at = λ (y : Store). ap y.disk e in
    record {
      stored = at s' ∙ x ∙ sym (at s) ∙ h.stored;
      fits = h.fits;
      ascending = h.ascending;
      counted = h.counted;
      filtered = h.filtered;
      indexed = h.indexed;
    }

module _ (s s' : Store) where
  pub RunsHold-SameFile :
      (i j : ℕ) (rs : List Run) (pss : List (List KeyValuePair))
      → ((k : ℕ) → j ≤ k → k < j + length rs → SameFile s s' i k)
      → RunsNamed i j rs
      → RunsHold s rs pss
      → RunsHold s' rs pss
  RunsHold-SameFile i j [] [] x e h = tt
  RunsHold-SameFile i j [] (ps ∷ pss) x e h = h
  RunsHold-SameFile i j (r ∷ rs) [] x e h = h
  RunsHold-SameFile i j (r ∷ rs) (ps ∷ pss) x e h = (
    Holds-SameFile s s' i j r ps (x j (omega arith) (omega arith)) e.0 h.0,
    RunsHold-SameFile i (suc j) rs pss (λ k a b. x k (omega arith) (omega arith)) e.1 h.1,
  )

  pub LevelsHold-SameFile :
      (i : ℕ) (ls : List Level) (psss : List (List (List KeyValuePair)))
      → ((m k : ℕ) → i ≤ m → m < i + length ls → SameFile s s' m k)
      → LevelsNamed i ls
      → LevelsHold s ls psss
      → LevelsHold s' ls psss
  LevelsHold-SameFile i [] [] x e h = tt
  LevelsHold-SameFile i [] (pss ∷ psss) x e h = h
  LevelsHold-SameFile i (l ∷ ls) [] x e h = h
  LevelsHold-SameFile i (l ∷ ls) (pss ∷ psss) x e h = (
    RunsHold-SameFile i 0 l.runs pss (λ k a b. x i k (omega arith) (omega arith)) e.0 h.0,
    LevelsHold-SameFile (suc i) ls psss (λ m k a b. x m k (omega arith) (omega arith)) e.1 h.1,
  )

-- A new run leaves the data files of the others alone.
pub OnlyFilesOf-SameFile :
    (s s' : Store) (m n i j : ℕ)
    → OnlyFilesOf (data_filename m n) s s'
    → ¬ ((m ≡ i) × (n ≡ j))
    → SameFile s s' i j
OnlyFilesOf-SameFile s s' m n i j only apart =
    let (own, bloom, fence) = same_name-data_filename m n i j apart in
    only (data_filename i j) own bloom fence

-- The store without the files of a run.
without : Run → Store → Store
unfolding Run.delete_files_from_disk
without r s = (Run.delete_files_from_disk r s).1

without-SameFile :
    (r : Run) (s : Store) (m n i j : ℕ)
    → r.filename ≡ data_filename m n
    → m ≢ i
    → SameFile s (without r s) i j
unfolding without Run.delete_files_from_disk
without-SameFile r s m n i j e h =
    let (own, bloom, fence) = same_name-data_filename m n i j (λ p. h p.0) in
    let named = λ (f : FileName → Bool). ap f e in
    let own' = named (λ f. same_name f (data_filename i j)) ∙ own in
    let bloom' = named (λ f. same_name (bloom_filename f) (data_filename i j)) ∙ bloom in
    let fence' = named (λ f. same_name (fence_filename f) (data_filename i j)) ∙ fence in
    rw (fence', bloom', own')

-- The runs of a level are deleted with their files, and the data files of other levels stay.
pub delete_all-SameFile :
    (m n : ℕ) (rs : List Run) (s : Store)
    → RunsNamed m n rs
    → (s' : Store) × (delete_all rs s ≡ (ok tt, s'))
      × (s'.writable ≡ s.writable)
      × (s'.write_io_count ≡ s.write_io_count)
      × ((i j : ℕ) → m ≢ i → SameFile s s' i j)
unfolding delete_all Run.delete_files_from_disk without
delete_all-SameFile m n [] s e = (s, refl, refl, refl, λ i j h. refl)
delete_all-SameFile m n (r ∷ rs) s e =
    let bare = without r s in
    let (s', run, rights, count, same) = delete_all-SameFile m (suc n) rs bare e.1 in
    (s', run, rights, count, λ i j h. same i j h ∙ without-SameFile r s m n i j e.0 h)
