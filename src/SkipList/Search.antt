-- ===== src/SkipList/Search.antt =====
-- The search over the levels ends where a search of the bottom level alone would.
use mathlib.Core.List.{append_assoc}
use cs.Prelude.{
  ℕ, zero, suc, ◌≤◌, ◌<◌, ◌≡◌, refl, sym, ap, ◌∙◌, List, [], ◌∷◌, ◌++◌, true, arith, ltb, All,
  Bool-cases, inl, inr,
}
use cs.Int64.{rank, lt64}
use cs.SkipList.{SkipListNode, SkipList, walk, descend, find_predecessors}

-- The keys ascend strictly, from rank `lo` on.
abbrev pub Climbs : ℕ → List SkipListNode → Type 0
Climbs lo [] = Unit
Climbs lo (n ∷ ns) = (lo ≤ rank n.key) × Climbs (suc (rank n.key)) ns

-- Each node is linked in at the bottom level at least.
abbrev pub IsLinked : List SkipListNode → Type 0
IsLinked [] = Unit
IsLinked (n ∷ ns) = (0 < n.height) × IsLinked ns

-- `rest` is behind nodes with smaller keys only.
pub record IsBehind (key : ℕ) (nodes rest : List SkipListNode) : Type 0 where
  pub front : List SkipListNode
  pub split : nodes ≡ front ++ rest
  pub smaller : All (λ n. rank n.key < rank key) front

IsBehind-refl : (key : ℕ) (ns : List SkipListNode) → IsBehind key ns ns
IsBehind-refl key ns = record { front = []; split = refl; smaller = tt }

All-append :
    (key : ℕ) (xs ys : List SkipListNode)
    → All (λ n. rank n.key < rank key) xs
    → All (λ n. rank n.key < rank key) ys
    → All (λ n. rank n.key < rank key) (xs ++ ys)
All-append key [] ys h h' = h'
All-append key (x ∷ xs) ys h h' = (h.0, All-append key xs ys h.1 h')

IsBehind-trans :
    {key : ℕ} {a b c : List SkipListNode} → IsBehind key a b → IsBehind key b c → IsBehind key a c
IsBehind-trans {key} {a} {b} {c} x y = record {
  front = x.front ++ y.front;
  split = x.split ∙ ap (◌++◌ x.front) y.split ∙ sym (append_assoc x.front y.front c);
  smaller = All-append key x.front y.front x.smaller y.smaller;
}

-- The nodes that a walk passes over stand before one with a smaller key, and so are smaller.
Climbs-smaller :
    (key lo : ℕ) (passed : List SkipListNode) (n : SkipListNode) (ns : List SkipListNode)
    → Climbs lo (passed ++ n ∷ ns)
    → rank n.key < rank key
    → All (λ m. rank m.key < rank key) (passed ++ n ∷ []) × (lo < rank key)
Climbs-smaller key lo [] n ns c h = ((h, tt), omega arith)
Climbs-smaller key lo (m ∷ passed) n ns c h =
    let (all, low) = Climbs-smaller key (suc (rank m.key)) passed n ns c.1 h in
    ((omega arith, all), omega arith)

Climbs-behind :
    (lo : ℕ) (front rest : List SkipListNode)
    → Climbs lo (front ++ rest)
    → (lo' : ℕ) × Climbs lo' rest
Climbs-behind lo [] rest c = (lo, c)
Climbs-behind lo (n ∷ front) rest c = Climbs-behind (suc (rank n.key)) front rest c.1

walk-IsBehind :
    (level key lo : ℕ) (rest passed ns : List SkipListNode)
    → rest ≡ passed ++ ns
    → Climbs lo rest
    → IsBehind key rest (walk level key rest ns)
unfolding walk
walk-IsBehind level key lo rest passed [] e c = IsBehind-refl key rest
walk-IsBehind level key lo rest passed (n ∷ ns) e c = elim (Bool-cases (ltb level n.height)) [
  | inr low ↦ rw low (
      walk-IsBehind level key lo rest (passed ++ n ∷ []) ns
        (e ∙ sym (append_assoc passed (n ∷ []) ns)) c)
  | inl tall ↦ rw tall (elim (Bool-cases (lt64 n.key key)) [
    | inr stop ↦ rw stop (IsBehind-refl key rest)
    | inl less ↦
        let joined : rest ≡ (passed ++ n ∷ []) ++ ns = e ∙ sym (append_assoc passed (n ∷ []) ns) in
        let (all, low) = Climbs-smaller key lo passed n ns (rw e at c) (ground arith) in
        let (lo', c') = Climbs-behind lo (passed ++ n ∷ []) ns (rw joined at c) in
        rw less (
          IsBehind-trans (record { front = passed ++ n ∷ []; split = joined; smaller = all })
            (walk-IsBehind level key lo' ns [] ns refl c'))
  ])
]

-- The search has come to the end or to a key that is not smaller.
abbrev pub IsStopped : ℕ → List SkipListNode → Type 0
IsStopped key [] = Unit
IsStopped key (n ∷ ns) = rank key ≤ rank n.key

walk-IsStopped : (key : ℕ) (ns : List SkipListNode) → IsLinked ns → IsStopped key (walk 0 key ns ns)
unfolding walk
walk-IsStopped key [] h = tt
walk-IsStopped key (n ∷ ns) h =
    let tall : ltb 0 n.height ≡ true = ground arith in
    elim (Bool-cases (lt64 n.key key)) [
      | inl less ↦ rw (tall, less) (walk-IsStopped key ns h.1)
      | inr stop ↦ rw (tall, stop) (ground arith)
    ]

IsLinked-behind : (front rest : List SkipListNode) → IsLinked (front ++ rest) → IsLinked rest
IsLinked-behind [] rest h = h
IsLinked-behind (n ∷ front) rest h = IsLinked-behind front rest h.1

descend_lem :
    (level key lo : ℕ) (rest : List SkipListNode)
    → Climbs lo rest
    → IsLinked rest
    → IsBehind key rest (descend (suc level) key rest)
      × IsStopped key (descend (suc level) key rest)
unfolding descend
descend_lem zero key lo rest c h =
    (walk-IsBehind 0 key lo rest [] rest refl c, walk-IsStopped key rest h)
descend_lem (suc level) key lo rest c h =
    let next = walk (suc level) key rest rest in
    let x = walk-IsBehind (suc level) key lo rest [] rest refl c in
    let (lo', c') = Climbs-behind lo x.front next (rw x.split at c) in
    let (y, stop) =
      descend_lem level key lo' next c' (IsLinked-behind x.front next (rw x.split at h)) in
    (IsBehind-trans x y, stop)

-- On nodes with ascending keys, each of height one or more, the search through all levels stops behind
-- exactly the nodes with smaller keys.
pub find_predecessors_lem :
    (t : SkipList) (key : ℕ)
    → Climbs 0 t.nodes
    → IsLinked t.nodes
    → IsBehind key t.nodes (find_predecessors t key) × IsStopped key (find_predecessors t key)
unfolding find_predecessors
find_predecessors_lem t key c h = descend_lem 31 key 0 t.nodes c h
