-- ===== src/SkipList.antt =====
-- `SkipList` of include/skip_list.h and src/skip_list.cpp, the buffer of the tree. The nodes stand in
-- the order of the bottom level, each with its height: the node that `next(level)` reaches is the
-- first one behind that is taller than `level`, and the tail where there is none. A position is the
-- list of the nodes behind it. The mutex is not modelled, and the height that the random generator
-- draws is an argument.
pub mod Search
pub mod Contents
pub mod Insert
use cs.Prelude.{
  ℕ, zero, suc, ◌+◌, ◌-◌, ◌*◌, min, List, [], ◌∷◌, ◌++◌, Bool, Option, none, some, ltb, leb, ◌==◌,
  if◌then◌else◌, length, take, map,
}
use cs.Int64.{lt64}
use cs.Pair.{KeyValuePair}

pub record SkipListNode : Type 0 where
  pub key : ℕ
  pub value : ℕ
  pub height : ℕ

pub record SkipList : Type 0 where
  pub nodes : List SkipListNode
  pub current_size : ℕ
  pub num_elements : ℕ

abbrev pub max_height : ℕ
max_height = 32

-- The constructor, and the state that `clear` leaves.
unfoldable pub empty : SkipList
empty = record { nodes = []; current_size = 0; num_elements = 0 }

-- `while (current->next(level) != tail && current->next(level)->get_key() < key)`: `rest` is what is
-- behind `current`, and the nodes of the last argument are looked through for the next tall one.
unfoldable pub walk : ℕ → ℕ → List SkipListNode → List SkipListNode → List SkipListNode
walk level key rest [] = rest
walk level key rest (n ∷ ns) =
    let on = walk level key ns ns in
    let over = walk level key rest ns in
    if ltb level n.height then (if lt64 n.key key then on else rest) else over

-- The levels below `levels`, from the highest down.
unfoldable pub descend : ℕ → ℕ → List SkipListNode → List SkipListNode
descend zero key rest = rest
descend (suc level) key rest = descend level key (walk level key rest rest)

-- What is behind `predecessors[0]`.
unfoldable pub find_predecessors : SkipList → ℕ → List SkipListNode
unfolding descend walk
find_predecessors t key = descend max_height key t.nodes

-- `random_height`, for a draw of the geometric distribution.
abbrev pub random_height : ℕ → ℕ
random_height draw = min (draw + 1) max_height

-- Eight bytes for the key, the value and each pointer, and the 48 bytes of a node less the 24 of its
-- vector (the sizes of the x86-64 ABI).
abbrev pub estimate_pair_size : ℕ → ℕ
estimate_pair_size height = 8 + 8 + 8 * height + 48 - 24

abbrev pub node : ℕ → ℕ → ℕ → SkipListNode
node key value height = record { key = key; value = value; height = height }

-- `insert`, from the nodes before and behind the predecessor. An existing key keeps its node.
unfoldable pub insert_at : SkipList → ℕ → ℕ → ℕ → List SkipListNode → List SkipListNode → SkipList
insert_at t key value height front [] = record {
  nodes = front ++ node key value height ∷ [];
  current_size = t.current_size + estimate_pair_size height;
  num_elements = t.num_elements + 1;
}
insert_at t key value height front (n ∷ ns) =
    if n.key == key then record t { nodes = front ++ node n.key value n.height ∷ ns } else record {
      nodes = front ++ node key value height ∷ n ∷ ns;
      current_size = t.current_size + estimate_pair_size height;
      num_elements = t.num_elements + 1;
    }

unfoldable pub insert : SkipList → ℕ → ℕ → ℕ → SkipList
unfolding insert_at find_predecessors
insert t key value draw =
    let rest = find_predecessors t key in
    insert_at t key value (random_height draw) (take (length t.nodes - length rest) t.nodes) rest

abbrev pub found : ℕ → List SkipListNode → Option ℕ
found key [] = none
found key (n ∷ ns) = if n.key == key then some n.value else none

unfoldable pub get : SkipList → ℕ → Option ℕ
unfolding find_predecessors
get t key = found key (find_predecessors t key)

unfoldable pub collect_until : ℕ → List SkipListNode → List KeyValuePair
collect_until end_key [] = []
collect_until end_key (n ∷ ns) =
    if lt64 n.key end_key
    then record { key = n.key; value = n.value } ∷ collect_until end_key ns
    else []

unfoldable pub range : SkipList → ℕ → ℕ → List KeyValuePair
unfolding find_predecessors collect_until
range t start_key end_key = collect_until end_key (find_predecessors t start_key)

unfoldable pub is_full : ℕ → SkipList → Bool
is_full buffer_size_bytes t = leb buffer_size_bytes t.current_size

unfoldable pub pairs_of : List SkipListNode → List KeyValuePair
pairs_of [] = []
pairs_of (n ∷ ns) = record { key = n.key; value = n.value } ∷ pairs_of ns

unfoldable pub get_all_sorted : SkipList → List KeyValuePair
unfolding pairs_of
get_all_sorted t = pairs_of t.nodes
