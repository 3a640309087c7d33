-- ===== src/SkipList/Contents.antt =====
-- The skip list as a finite map in ascending order.
use cs.Prelude.{
  ℕ, suc, ◌≤◌, ◌<◌, ◌≡◌, refl, sym, ap, ◌∙◌, List, [], ◌∷◌, ◌++◌, none, arith, All, length,
  is_empty, ◌==◌,
}
use cs.Int64.{rank}
use cs.Pair.{KeyValuePair, Ascends, lookup, within}
use cs.SkipList.{
  SkipListNode, SkipList, find_predecessors, found, get, range, pairs_of, collect_until,
  get_all_sorted, empty,
}
use cs.SkipList.Search.{Climbs, IsLinked, IsStopped, find_predecessors_lem}

-- What every operation keeps.
pub record IsValid (t : SkipList) : Type 0 where
  pub climbs : Climbs 0 t.nodes
  pub linked : IsLinked t.nodes
  pub counted : t.num_elements ≡ length t.nodes

abbrev pub contents : SkipList → List KeyValuePair
contents t = get_all_sorted t

Climbs-Ascends : (lo : ℕ) (ns : List SkipListNode) → Climbs lo ns → Ascends lo (pairs_of ns)
unfolding pairs_of
Climbs-Ascends lo [] c = tt
Climbs-Ascends lo (n ∷ ns) c = (c.0, Climbs-Ascends (suc (rank n.key)) ns c.1)

-- The pairs that a flush takes of a valid list are in ascending order, without duplicates.
pub get_all_sorted-Ascends : (t : SkipList) → IsValid t → Ascends 0 (get_all_sorted t)
unfolding get_all_sorted
get_all_sorted-Ascends t v = Climbs-Ascends 0 t.nodes v.climbs

lookup_front :
    (key : ℕ) (front rest : List SkipListNode)
    → All (λ n. rank n.key < rank key) front
    → lookup key (pairs_of (front ++ rest)) ≡ lookup key (pairs_of rest)
unfolding lookup pairs_of
lookup_front key [] rest h = refl
lookup_front key (n ∷ front) rest h = ground (arith, lookup_front key front rest h.1)

pub Climbs-behind_lookup :
    (key lo : ℕ) (ns : List SkipListNode)
    → Climbs lo ns
    → rank key < lo
    → lookup key (pairs_of ns) ≡ none
unfolding lookup pairs_of
Climbs-behind_lookup key lo [] c h = refl
Climbs-behind_lookup key lo (n ∷ ns) c h =
    ground (arith, Climbs-behind_lookup key (suc (rank n.key)) ns c.1)

found-lookup :
    (key lo : ℕ) (ns : List SkipListNode)
    → Climbs lo ns
    → IsStopped key ns
    → found key ns ≡ lookup key (pairs_of ns)
unfolding lookup pairs_of
found-lookup key lo [] c h = refl
found-lookup key lo (n ∷ ns) c h =
    ground (arith, Climbs-behind_lookup key (suc (rank n.key)) ns c.1)

Climbs-tail :
    (lo : ℕ) (front rest : List SkipListNode)
    → Climbs lo (front ++ rest)
    → (lo' : ℕ) × Climbs lo' rest
Climbs-tail lo [] rest c = (lo, c)
Climbs-tail lo (n ∷ front) rest c = Climbs-tail (suc (rank n.key)) front rest c.1

-- On a valid list, `get` returns what a lookup in the contents returns.
pub get-lookup-get_all_sorted :
    (t : SkipList) (key : ℕ) → IsValid t → get t key ≡ lookup key (get_all_sorted t)
unfolding get get_all_sorted
get-lookup-get_all_sorted t key v =
    let (x, stop) = find_predecessors_lem t key v.climbs v.linked in
    let rest = find_predecessors t key in
    let (lo, c) = Climbs-tail 0 x.front rest (rw x.split at v.climbs) in
    found-lookup key lo rest c stop
    ∙ sym (lookup_front key x.front rest x.smaller)
    ∙ ap (λ ns. lookup key (pairs_of ns)) (sym x.split)

within_front :
    (start_key end_key : ℕ) (front rest : List SkipListNode)
    → All (λ n. rank n.key < rank start_key) front
    → within start_key end_key (pairs_of (front ++ rest)) ≡ within start_key end_key (pairs_of rest)
unfolding within pairs_of
within_front start_key end_key [] rest h = refl
within_front start_key end_key (n ∷ front) rest h =
    ground (arith, within_front start_key end_key front rest h.1)

within_high :
    (start_key end_key lo : ℕ) (ns : List SkipListNode)
    → Climbs lo ns
    → rank end_key ≤ lo
    → within start_key end_key (pairs_of ns) ≡ []
unfolding within pairs_of
within_high start_key end_key lo [] c h = refl
within_high start_key end_key lo (n ∷ ns) c h =
    ground (arith, within_high start_key end_key (suc (rank n.key)) ns c.1)

collect_until-within :
    (start_key end_key lo : ℕ) (ns : List SkipListNode)
    → Climbs lo ns
    → IsStopped start_key ns
    → collect_until end_key ns ≡ within start_key end_key (pairs_of ns)
unfolding collect_until within pairs_of
collect_until-within start_key end_key lo [] c h = refl
collect_until-within start_key end_key lo (n ∷ ns) c h = ground (
  arith,
  collect_until-within start_key end_key (suc (rank n.key)) ns c.1
      (next (suc (rank n.key)) ns c.1 (omega arith)),
  within_high start_key end_key (suc (rank n.key)) ns c.1,
)
  where
    next :
        (l : ℕ) (ms : List SkipListNode) → Climbs l ms → rank start_key ≤ l → IsStopped start_key ms
    next l [] d g = tt
    next l (m ∷ ms) d g = omega arith

-- On a valid list, `range` returns the pairs of the contents with keys in [start_key, end_key).
pub range-within-get_all_sorted :
    (t : SkipList) (start_key end_key : ℕ)
    → IsValid t
    → range t start_key end_key ≡ within start_key end_key (get_all_sorted t)
unfolding range get_all_sorted
range-within-get_all_sorted t start_key end_key v =
    let (x, stop) = find_predecessors_lem t start_key v.climbs v.linked in
    let rest = find_predecessors t start_key in
    let (lo, c) = Climbs-tail 0 x.front rest (rw x.split at v.climbs) in
    collect_until-within start_key end_key lo rest c stop
    ∙ sym (within_front start_key end_key x.front rest x.smaller)
    ∙ ap (λ ns. within start_key end_key (pairs_of ns)) (sym x.split)

-- `clear` leaves a valid list without pairs.
pub empty-IsValid : IsValid empty × (get_all_sorted empty ≡ [])
unfolding empty get_all_sorted
empty-IsValid = (record { climbs = tt; linked = tt; counted = refl }, refl)

-- The count tells whether there are pairs.
pub is_empty-contents :
    (t : SkipList) → IsValid t → is_empty (get_all_sorted t) ≡ (t.num_elements == 0)
unfolding get_all_sorted pairs_of
is_empty-contents t v = rw v.counted (go t.nodes)
  where
    go : (ns : List SkipListNode) → is_empty (pairs_of ns) ≡ (length ns == 0)
    go [] = refl
    go (n ∷ ns) = ground arith
