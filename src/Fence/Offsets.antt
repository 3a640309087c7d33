-- ===== src/Fence/Offsets.antt =====
-- The offsets that `find_offset` and `find_range_offsets` return for an index of a run.
use cs.Prelude.{
  ℕ, suc, ◌-◌, ◌*◌, ◌≤◌, ◌<◌, ◌≡◌, refl, ◌⊎◌, inl, inr, List, [], ◌∷◌, arith, ◌==◌, length, get_or,
  get_elem?-eq-get_or, All, take, drop, Bool-cases,
}
use cs.Int64.{rank}
use cs.Result.{ok}
use cs.Pair.{KeyValuePair, Ascends}
use cs.Fence.{
  FencePointer, FencePointers, fence, binary_search, find_offset, find_range_offsets, no_end,
  end_offset,
}
use cs.Fence.Index.{
  IsIndexOf, IsIndexOf-offset, IsIndexOf-nil, IsIndexOf-Indexes, Indexes-PointsAt, Indexes-Climbs,
}
use cs.Fence.Search.{IsChoice, binary_search-IsChoice}

-- `o` is the offset of a pair before which all keys are smaller than `key`.
pub record IsStart (ps : List KeyValuePair) (key o : ℕ) : Type 0 where
  pub index : ℕ
  pub place : o ≡ 16 * index
  pub before : All (λ p. rank p.key < rank key) (take index ps)

-- `o` is the offset of a pair from which on no key is below `key`, or the end of the file.
pub record IsEnd (ps : List KeyValuePair) (key o : ℕ) : Type 0 where
  pub index : ℕ
  pub place : (o ≡ no_end) ⊎ ((o ≡ 16 * index) × All (λ p. rank key ≤ rank p.key) (drop index ps))

All-lt_mono :
    (m n : ℕ) (ps : List KeyValuePair)
    → m ≤ n
    → All (λ p. rank p.key < m) ps
    → All (λ p. rank p.key < n) ps
All-lt_mono m n [] h a = tt
All-lt_mono m n (p ∷ ps) h a = (omega arith, All-lt_mono m n ps h a.1)

All-le_mono :
    (m n : ℕ) (ps : List KeyValuePair)
    → m ≤ n
    → All (λ p. n ≤ rank p.key) ps
    → All (λ p. m ≤ rank p.key) ps
All-le_mono m n [] h a = tt
All-le_mono m n (p ∷ ps) h a = (omega arith, All-le_mono m n ps h a.1)

module _ (name : List ℕ) (ps : List KeyValuePair) (f : FencePointer) (fs : List FencePointer) where
  abbrev pointers : FencePointers
  pointers = record { fence_pointers = f ∷ fs; run_filename = name }

  choice-IsStart :
      (lo key i : ℕ)
      → IsIndexOf ps (f ∷ fs)
      → Ascends lo ps
      → IsChoice (f ∷ fs) key i
      → IsStart ps key (get_or (f ∷ fs) i (fence 0 0)).offset
  choice-IsStart lo key i x a c = elim c.from [
    | inl e ↦ rw e (record { index = 0; place = IsIndexOf-offset x; before = tt })
    | inr le ↦
        let q = Indexes-PointsAt lo i (IsIndexOf-Indexes x) a c.inside in
        record {
          index = q.index;
          place = omega (arith, q.place);
          before = All-lt_mono _ _ (take q.index ps) le q.before;
        }
  ]

  -- An entry behind the chosen one is the end of a scan up to `key`.
  choice-IsEnd :
      (lo key i : ℕ)
      → IsIndexOf ps (f ∷ fs)
      → Ascends lo ps
      → IsChoice (f ∷ fs) key i
      → (o : ℕ) × (end_offset (f ∷ fs) i ≡ ok o) × IsEnd ps key o
  choice-IsEnd lo key i x a c = elim (Bool-cases (i == length (f ∷ fs) - 1)) [
    | inl last ↦ (no_end, rw last, record { index = 0; place = inl refl })
    | inr more ↦
        let inside : suc i < length (f ∷ fs) = ground (arith, c.inside) in
        let next = get_or (f ∷ fs) (suc i) (fence 0 0) in
        let q = Indexes-PointsAt lo (suc i) (IsIndexOf-Indexes x) a inside in
        (
          next.offset,
          rw (more, get_elem?-eq-get_or (f ∷ fs) (suc i) (fence 0 0) inside),
          record {
            index = q.index;
            place = inr (
              omega (arith, q.place),
              All-le_mono _ _ (drop q.index ps) (omega (arith, c.upto inside)) q.after,
            );
          },
        )
  ]

  choose :
      (lo key : ℕ)
      → IsIndexOf ps (f ∷ fs)
      → Ascends lo ps
      → (i : ℕ) × (binary_search (f ∷ fs) key ≡ ok i) × IsChoice (f ∷ fs) key i
  choose lo key x a =
      binary_search-IsChoice (f ∷ fs) key lo (Indexes-Climbs lo (IsIndexOf-Indexes x) a)
        (omega arith)

  find_offset_found :
      (lo key : ℕ)
      → IsIndexOf ps (f ∷ fs)
      → Ascends lo ps
      → (o : ℕ) × (find_offset pointers key ≡ ok o) × IsStart ps key o
  unfolding find_offset
  find_offset_found lo key x a =
      let (i, e, c) = choose lo key x a in
      (
        _,
        rw (e, get_elem?-eq-get_or (f ∷ fs) i (fence 0 0) c.inside),
        choice-IsStart lo key i x a c,
      )

  find_range_offsets_found :
      (lo start_key end_key : ℕ)
      → IsIndexOf ps (f ∷ fs)
      → Ascends lo ps
      → (o o' : ℕ) × (find_range_offsets pointers start_key end_key ≡ ok (o, o'))
        × IsStart ps start_key o
        × IsEnd ps end_key o'
  unfolding find_range_offsets
  find_range_offsets_found lo start_key end_key x a =
      let (i, e, c) = choose lo start_key x a in
      let (j, e', c') = choose lo end_key x a in
      let (o', e'', w) = choice-IsEnd lo end_key j x a c' in
      (
        _,
        o',
        rw (e, get_elem?-eq-get_or (f ∷ fs) i (fence 0 0) c.inside, e', e''),
        choice-IsStart lo start_key i x a c,
        w,
      )

module _ (ps : List KeyValuePair) (key : ℕ) where
  find_offset_entries :
      (name : List ℕ) (fs : List FencePointer)
      → IsIndexOf ps fs
      → Ascends 0 ps
      → (o : ℕ) × (find_offset (record { fence_pointers = fs; run_filename = name }) key ≡ ok o)
        × IsStart ps key o
  unfolding find_offset
  find_offset_entries name [] x a = (0, refl, record { index = 0; place = refl; before = tt })
  find_offset_entries name (f ∷ fs) x a = find_offset_found name ps f fs 0 key x a

  -- For an index of a run in ascending order, `find_offset` returns the offset of a pair before
  -- which all keys are smaller than the one sought.
  pub find_offset-IsStart :
      (p : FencePointers)
      → IsIndexOf ps p.fence_pointers
      → Ascends 0 ps
      → (o : ℕ) × (find_offset p key ≡ ok o) × IsStart ps key o
  find_offset-IsStart p x a = find_offset_entries p.run_filename p.fence_pointers x a

module _ (ps : List KeyValuePair) (start_key end_key : ℕ) where
  abbrev Bounded : FencePointers → Type 0
  Bounded p =
      (o o' : ℕ) × (find_range_offsets p start_key end_key ≡ ok (o, o'))
      × IsStart ps start_key o
      × IsEnd ps end_key o'

  find_range_offsets-Bounded :
      (name : List ℕ) (fs : List FencePointer)
      → IsIndexOf ps fs
      → Ascends 0 ps
      → Bounded (record { fence_pointers = fs; run_filename = name })
  unfolding find_range_offsets
  find_range_offsets-Bounded name [] x a = (
    0,
    0,
    refl,
    record { index = 0; place = refl; before = tt },
    record { index = 0; place = inr (refl, rw (IsIndexOf-nil x) tt) },
  )
  find_range_offsets-Bounded name (f ∷ fs) x a =
      find_range_offsets_found name ps f fs 0 start_key end_key x a

  -- `find_range_offsets` returns an offset before which all keys are below the start of the range,
  -- and one from which on none is below its end (or the end of the file).
  pub find_range_offsets-IsEnd :
      (p : FencePointers)
      → IsIndexOf ps p.fence_pointers
      → Ascends 0 ps
      → (o o' : ℕ) × (find_range_offsets p start_key end_key ≡ ok (o, o'))
        × IsStart ps start_key o
        × IsEnd ps end_key o'
  find_range_offsets-IsEnd p x a = find_range_offsets-Bounded p.run_filename p.fence_pointers x a
