-- ===== src/Tree/Startup/Scan.antt =====
-- What the scan of the directory finds at startup: the runs of each level, in the order of the directory.
use cs.Prelude.{ℕ, suc, ◌≡◌, ◌≤◌, ◌<◌, ◌^◌, List, [], ◌∷◌, none, ◌==◌, if◌then◌else◌, drop}
use cs.Int64.{word, rank}
use cs.Store.{FileName}
use cs.Run.{data_filename}
use cs.Tree.Startup.{name_parts}

-- What the scan holds: the levels, each with the ids and the names of its runs.
abbrev Found : Type 0
Found = List (ℕ × List (ℕ × FileName))

-- The runs of a level.
abbrev pub runs_at : ℕ → Found → List (ℕ × FileName)
runs_at k [] = []
runs_at k ((l, es) ∷ rest) = let later = runs_at k rest in if l == k then es else later

abbrev only_at : ℕ → ℕ → ℕ × FileName → List (ℕ × FileName)
only_at k level entry = if level == k then entry ∷ [] else []

-- The levels ascend.
abbrev InOrder : ℕ → Found → Type 0
InOrder lo [] = Unit
InOrder lo ((l, es) ∷ rest) = (lo ≤ rank l) × InOrder (suc (rank l)) rest

-- A file of the directory: one that a run is stored under, or another one.
pub data File : Type 0 where
  run_file : ℕ → ℕ → File
  other_file : FileName → File

abbrev pub file_name : File → FileName
file_name (run_file level run_id) = drop 5 (data_filename level run_id)
file_name (other_file name) = name

-- The level is an `int` and the id a `size_t`; another file has no name of the form that the scan cuts.
abbrev pub IsFile : File → Type 0
IsFile (run_file level run_id) = (level < 2 ^ 31) × (run_id < word)
IsFile (other_file name) = name_parts name ≡ none

-- The runs of a level in the directory.
abbrev pub stored_at : ℕ → List File → List (ℕ × FileName)
stored_at k [] = []
stored_at k (run_file level run_id ∷ files) =
    let later = stored_at k files in
    if level == k then (run_id, data_filename level run_id) ∷ later else later
stored_at k (other_file name ∷ files) = stored_at k files

abbrev pub names : List File → List FileName
names [] = []
names (f ∷ files) = file_name f ∷ names files
