-- ===== src/Adapter.antt =====
-- `LSMAdapter` of include/lsm_adapter.h and src/lsm_adapter.cpp: the commands of the server as calls of
-- the tree. A text is its characters. `stoll` and the stream that splits a command belong to the
-- standard library and are written out; the text of an exception is a parameter.
pub mod Commands
pub mod Stats
pub mod Load
use cs.Prelude.{
  ℕ, ◌+◌, ◌-◌, ◌%◌, ◌≡◌, List, [], ◌∷◌, ◌++◌, Bool, true, false, ◌&&◌, ◌||◌, Option, none, some,
  ltb, leb, ◌==◌, if◌then◌else◌,
}
use cs.Int64.{word, tombstone, le64}
use cs.Result.{Result, ok, err, Error, invalid_argument, out_of_range, is_exception}
use cs.Pair.{KeyValuePair}
use cs.Double.{Doubles}
use cs.Store.{codes, to_string}
use cs.Store.Paths.{read_number}
use cs.Text.{Text, is_space, is_digit, digits_of, positive, stoll, signed_text}
use cs.Tree.{LsmTree, TreeAction, ◌>>=◌, ◌>>◌, return, modify}
use cs.Tree.Access
use cs.Tree.Access.{put, remove}

-- The token read so far, if it has characters.
abbrev pub finish : Text → List Text
finish [] = []
finish (c ∷ cs) = (c ∷ cs) ∷ []

-- `while (iss >> token)`
unfoldable pub split : Text → Text → List Text
split token [] = finish token
split token (c ∷ cs) =
    let next = split [] cs in
    let on = split (token ++ c ∷ []) cs in if is_space c then finish token ++ next else on

unfoldable pub tokenize : Text → List Text
unfolding split
tokenize command = split [] command

-- `result ? std::to_string(*result) : ""`
abbrev pub printed : Option ℕ → Text
printed none = []
printed (some v) = signed_text v

abbrev lift {ℓ} : {A : Type ℓ} → Result A → TreeAction A
lift r t = (r, t)

module _ (what : Error → Text) where
  -- `catch (const std::exception &e)`
  abbrev pub answered : Result Text × LsmTree → Result Text × LsmTree
  answered (ok reply, t) = (ok reply, t)
  answered (err e, t) =
      if is_exception e then (ok (codes "Error parsing arguments: " ++ what e), t) else (err e, t)

  unfoldable pub handle_get : List Text → TreeAction Text
  unfolding stoll
  handle_get (command ∷ key ∷ []) t =
      answered ((do k ← lift (stoll key); result ← Access.get k; return (printed result)) t)
  handle_get tokens t = (ok (codes "Error: Get command requires exactly 1 argument"), t)

  module _ (d : Doubles) (sort : List KeyValuePair → List KeyValuePair) (draw : ℕ) where
    unfoldable pub handle_put : List Text → TreeAction Text
    unfolding stoll
    handle_put (command ∷ key ∷ value ∷ []) t = answered (
        (do
          k ← lift (stoll key)
          v ← lift (stoll value)
          put d sort k v draw
          return (codes "Put successful: " ++ (key ++ (codes " -> " ++ value))))
          t)
    handle_put tokens t = (ok (codes "Error: Put command requires exactly 2 arguments"), t)

    unfoldable pub handle_delete : List Text → TreeAction Text
    unfolding stoll
    handle_delete (command ∷ key ∷ []) t = answered (
        (do
          k ← lift (stoll key)
          success ← remove d sort k draw
          return
              (if success then codes "Delete successful" else codes "Delete failed: Key not found"))
          t)
    handle_delete tokens t = (ok (codes "Error: Delete command requires exactly 1 argument"), t)

  -- `ss << pair.key << ":" << pair.value << " ";`
  unfoldable pub print_pairs : List KeyValuePair → Text
  print_pairs [] = []
  print_pairs (p ∷ ps) =
      signed_text p.key ++ (codes ":" ++ (signed_text p.value ++ (codes " " ++ print_pairs ps)))

  unfoldable pub handle_range :
      Doubles → (List KeyValuePair → List KeyValuePair) → List Text → TreeAction Text
  unfolding stoll print_pairs
  handle_range d sort (command ∷ first ∷ last ∷ []) t = answered (
      (do
        start_key ← lift (stoll first)
        end_key ← lift (stoll last)
        if le64 end_key start_key
            then return (codes "Error: Start key must be less than end key")
            else do results ← Access.range d sort start_key end_key; return (print_pairs results))
        t)
  handle_range d sort tokens t = (ok (codes "Error: Range command requires exactly 2 arguments"), t)

-- `reset_io_stats` and `reset_timing_stats`
unfoldable pub handle_reset_stats : TreeAction Text
handle_reset_stats t = (
  ok (codes "Statistics reset successfully"),
  record t {
    read_count = 0;
    write_count = 0;
    store = record t.store { read_io_count = 0; write_io_count = 0 };
  },
)
