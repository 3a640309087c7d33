-- ===== src/Adapter/Load.antt =====
-- `handle_load`, `shutdown` and `process_command` of src/lsm_adapter.cpp. Of the commands that read or
-- print a `double`, the parameters are those of `handle_stats`.
use cs.Prelude.{
  ℕ, List, [], ◌∷◌, ◌++◌, Bool, true, false, ◌||◌, Option, none, some, ◌==◌, if◌then◌else◌,
}
use cs.Result.{Result, ok, err, Error, is_exception}
use cs.Pair.{KeyValuePair}
use cs.Double.{Doubles}
use cs.Store.{codes}
use cs.Text.{Text, cut_where}
use cs.Tree.{LsmTree, TreeAction}
use cs.Tree.Bulk.{bulk_load_file}
use cs.Tree.Upkeep.{compact}
use cs.Adapter.{tokenize, handle_put, handle_get, handle_range, handle_delete, handle_reset_stats}
use cs.Adapter.Stats.{Times, handle_stats}

-- One of the two quotes.
abbrev pub is_quote : ℕ → Bool
is_quote c = c == b'"' || c == 39

-- The text between the first two quotes, and what follows them. The two need not be the same.
pub data Quoted : Type 0 where
  no_quote unclosed : Quoted
  quoted : Text → Text → Quoted

abbrev pub closed : Option (Text × Text) → Quoted
closed none = unclosed
closed (some (path, after)) = quoted path after

abbrev pub opened : Option (Text × Text) → Quoted
opened none = no_quote
opened (some (before, inside)) = closed (cut_where is_quote inside)

unfoldable pub find_quoted : Text → Quoted
unfolding cut_where
find_quoted command = opened (cut_where is_quote command)

-- `after_path.find_first_not_of(" \t") == std::string::npos`
unfoldable pub only_blanks : Text → Bool
only_blanks [] = true
only_blanks (c ∷ cs) = let rest = only_blanks cs in if c == 32 || c == 9 then rest else false

module _ (what : Error → Text) where
  -- `catch (const std::exception &e)`
  abbrev pub load_reply : Text → Result (Unit {0}) × LsmTree → Result Text × LsmTree
  load_reply filepath (ok done, t) = (ok (codes "File loaded successfully: " ++ filepath), t)
  load_reply filepath (err e, t) =
      if is_exception e then (ok (codes "Error loading file: " ++ what e), t) else (err e, t)

  module _ (d : Doubles) (sort : List KeyValuePair → List KeyValuePair) where
    -- `fs::exists(filepath)`, then the loading.
    abbrev pub load_existing : Text → Option (List ℕ) → TreeAction Text
    load_existing filepath none t = (ok (codes "Error: File not found: " ++ filepath), t)
    load_existing filepath (some content) t = load_reply filepath (bulk_load_file d sort filepath t)

    abbrev pub load_quoted : Quoted → TreeAction Text
    load_quoted no_quote t = (ok (codes "Error: Load command requires filepath in quotes"), t)
    load_quoted unclosed t = (ok (codes "Error: Unclosed quote in filepath"), t)
    load_quoted (quoted filepath after) t =
        if only_blanks after
        then load_existing filepath (t.store.disk filepath) t
        else (ok (codes "Error: Unexpected content after filepath"), t)

    unfoldable pub handle_load : Text → TreeAction Text
    unfolding find_quoted only_blanks bulk_load_file
    handle_load command = load_quoted (find_quoted command)

    -- `shutdown`
    unfoldable pub shutdown : TreeAction (Unit {0})
    unfolding compact
    shutdown = compact d sort

    module _ (fixed : ℕ → ℕ → Text) (times : Times) (draw : ℕ) where
      -- `command.size() == 1 || command[1] == ' '`
      abbrev pub is_reset : Text → Bool
      is_reset [] = true
      is_reset (c ∷ cs) = c == 32

      abbrev pub stats_reply : List Text → TreeAction Text
      stats_reply (a ∷ b ∷ tokens) t = (ok (codes "Error: Stats command takes no arguments"), t)
      stats_reply tokens t = handle_stats d fixed times t

      unfoldable pub process_command : Text → TreeAction Text
      unfolding handle_put handle_get handle_range handle_delete handle_reset_stats handle_load
          handle_stats tokenize
      process_command [] t = (ok (codes "Error: Empty command"), t)
      process_command (c ∷ cs) t =
          if c == b'p'
          then handle_put what d sort draw (tokenize (c ∷ cs)) t
          else if c == b'g'
          then handle_get what (tokenize (c ∷ cs)) t
          else if c == b'r'
          then (if is_reset cs
              then handle_reset_stats t
              else handle_range what d sort (tokenize (c ∷ cs)) t)
          else if c == b'd'
          then handle_delete what d sort draw (tokenize (c ∷ cs)) t
          else if c == b'l'
          then handle_load (c ∷ cs) t
          else if c == b's'
          then stats_reply (tokenize (c ∷ cs)) t
          else (ok (codes "Error: Unknown command"), t)
