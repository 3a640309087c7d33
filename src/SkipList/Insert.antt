-- ===== src/SkipList/Insert.antt =====
-- `SkipList::insert` updates the map that the list stands for.
use cs.Prelude.{
  ℕ, suc, ◌-◌, ◌≤◌, ◌<◌, ◌≡◌, ◌≢◌, refl, sym, ap, ◌∙◌, List, [], ◌∷◌, ◌++◌, some, arith, ◌==◌, All,
  length, take, length-append, Bool-cases, inl, inr, if◌then◌else◌,
}
use cs.Int64.{rank, rank-injective}
use cs.Pair.{lookup}
use cs.SkipList.{
  SkipListNode, SkipList, node, find_predecessors, insert, insert_at, random_height, pairs_of,
  get_all_sorted,
}
use cs.SkipList.Search.{Climbs, IsLinked, IsStopped, find_predecessors_lem}
use cs.SkipList.Contents.{IsValid}

take_front :
    (front rest : List SkipListNode)
    → take (length (front ++ rest) - length rest) (front ++ rest) ≡ front
take_front front rest =
    let e : length (front ++ rest) - length rest ≡ length front =
      omega (arith, length-append front rest) in
    rw e (go front)
  where
    go : (xs : List SkipListNode) → take (length xs) (xs ++ rest) ≡ xs
    go [] = refl
    go (x ∷ xs) = ap (◌∷◌ x) (go xs)

-- Two lists behind the same smaller nodes.
lookup_behind :
    (key k : ℕ) (front xs ys : List SkipListNode) (v : ℕ)
    → All (λ n. rank n.key < rank key) front
    → lookup k (pairs_of xs) ≡ (if key == k then some v else lookup k (pairs_of ys))
    → lookup k (pairs_of (front ++ xs))
      ≡ (if key == k then some v else lookup k (pairs_of (front ++ ys)))
unfolding lookup pairs_of
lookup_behind key k [] xs ys v h e = e
lookup_behind key k (n ∷ front) xs ys v h e =
    ground (arith, lookup_behind key k front xs ys v h.1 e)

Climbs-behind :
    (lo key : ℕ) (front xs ys : List SkipListNode)
    → lo ≤ rank key
    → All (λ n. rank n.key < rank key) front
    → Climbs lo (front ++ ys)
    → ((lo' : ℕ) → lo' ≤ rank key → Climbs lo' ys → Climbs lo' xs)
    → Climbs lo (front ++ xs)
Climbs-behind lo key [] xs ys l h c f = f lo l c
Climbs-behind lo key (n ∷ front) xs ys l h c f =
    (c.0, Climbs-behind (suc (rank n.key)) key front xs ys h.0 h.1 c.1 f)

IsLinked-behind :
    (front xs ys : List SkipListNode)
    → IsLinked (front ++ ys)
    → (IsLinked ys → IsLinked xs)
    → IsLinked (front ++ xs)
IsLinked-behind [] xs ys h f = f h
IsLinked-behind (n ∷ front) xs ys h f = (h.0, IsLinked-behind front xs ys h.1 f)

-- What an insertion does to a map.
pub record IsInsertion (key value : ℕ) (t t' : SkipList) : Type 0 where
  pub valid : IsValid t'
  pub reads :
      (k : ℕ)
      → lookup k (get_all_sorted t')
        ≡ (if key == k then some value else lookup k (get_all_sorted t))

module _ (t t' : SkipList) (key value : ℕ) (front xs ys : List SkipListNode) where
  -- The nodes `ys` behind smaller ones are replaced by `xs`.
  replaced :
      t.nodes ≡ front ++ ys
      → t'.nodes ≡ front ++ xs
      → t'.num_elements ≡ length (front ++ xs)
      → All (λ n. rank n.key < rank key) front
      → IsValid t
      → ((lo : ℕ) → lo ≤ rank key → Climbs lo ys → Climbs lo xs)
      → (IsLinked ys → IsLinked xs)
      → ((k : ℕ)
          → lookup k (pairs_of xs) ≡ (if key == k then some value else lookup k (pairs_of ys)))
      → IsInsertion key value t t'
  unfolding get_all_sorted
  replaced e e' count h v climb link read = record {
    valid = record {
      climbs = rw e' (Climbs-behind 0 key front xs ys (omega arith) h (rw e at v.climbs) climb);
      linked = rw e' (IsLinked-behind front xs ys (rw e at v.linked) link);
      counted = rw e' count;
    };
    reads = λ k. rw (e, e') (lookup_behind key k front xs ys value h (read k));
  }

module _ (t : SkipList) (key value height : ℕ) (front : List SkipListNode) (tall : 0 < height) where
  insert_at-IsInsertion :
      (rest : List SkipListNode)
      → t.nodes ≡ front ++ rest
      → All (λ n. rank n.key < rank key) front
      → IsStopped key rest
      → IsValid t
      → IsInsertion key value t (insert_at t key value height front rest)
  unfolding insert_at lookup pairs_of
  insert_at-IsInsertion [] e h stop v =
      replaced t _ key value front (node key value height ∷ []) [] e refl
        (omega (
          arith,
          v.counted,
          ap length e,
          length-append front [],
          length-append front (node key value height ∷ []),
        ))
        h v (λ lo l c. (l, tt)) (λ c. (tall, tt)) (λ k. refl)
  insert_at-IsInsertion (n ∷ ns) e h stop v = elim (Bool-cases (n.key == key)) [
    | inl same ↦ rw same (
        replaced t _ key value front (node n.key value n.height ∷ ns) (n ∷ ns) e refl
          (omega (
            arith,
            v.counted,
            ap length e,
            length-append front (n ∷ ns),
            length-append front (node n.key value n.height ∷ ns),
          ))
          h v (λ lo l c. c) (λ c. c) (λ k. ground arith))
    | inr other ↦
        let apart : rank key ≢ rank n.key =
          λ r. let e' : n.key ≡ key = sym (rank-injective key n.key r) in ground arith in
        let above : rank key < rank n.key = omega arith in
        rw other (
          replaced t _ key value front (node key value height ∷ n ∷ ns) (n ∷ ns) e refl
            (omega (
              arith,
              v.counted,
              ap length e,
              length-append front (n ∷ ns),
              length-append front (node key value height ∷ n ∷ ns),
            ))
            h v (λ lo l c. (l, (above, c.1))) (λ c. (tall, c)) (λ k. refl))
  ]

-- `insert` keeps a valid skip list valid; afterwards its key has the new value, and every other key the
-- value that it had.
pub insert-IsInsertion :
    (t : SkipList) (key value draw : ℕ)
    → IsValid t
    → IsInsertion key value t (insert t key value draw)
unfolding insert
insert-IsInsertion t key value draw v =
    let (x, stop) = find_predecessors_lem t key v.climbs v.linked in
    let rest = find_predecessors t key in
    let front = take (length t.nodes - length rest) t.nodes in
    let same : front ≡ x.front =
      ap (λ ns. take (length ns - length rest) ns) x.split ∙ take_front x.front rest in
    insert_at-IsInsertion t key value (random_height draw) front (omega arith) rest
      (x.split ∙ ap (λ ns. ns ++ rest) (sym same)) (rw same x.smaller) stop v
