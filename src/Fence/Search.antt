-- ===== src/Fence/Search.antt =====
-- `binary_search` of src/fence_pointers.cpp.
use cs.Prelude.{
  ℕ, zero, suc, ◌+◌, ◌-◌, ◌/◌, ◌≤◌, ◌<◌, ◌≡◌, refl, ◌⊎◌, inl, inr, List, [], ◌∷◌, arith, ltb,
  length, get_or, get_elem?-eq-get_or, Bool-cases,
}
use cs.Int64.{rank, lt64, le64}
use cs.Result.{ok}
use cs.Fence.{FencePointer, fence, search_loop, binary_search}

-- A total read for statements; each use stands under a bound on the index.
abbrev pub key_at : List FencePointer → ℕ → ℕ
key_at fs i = (get_or fs i (fence 0 0)).key

-- Index `i` is the last entry with a key not above `key`, or the first entry where there is none.
pub record IsChoice (fs : List FencePointer) (key i : ℕ) : Type 0 where
  pub inside : i < length fs
  pub from : (i ≡ 0) ⊎ (rank (key_at fs i) ≤ rank key)
  pub upto : suc i < length fs → rank key < rank (key_at fs (suc i))

-- The keys of the entries ascend, from rank `lo` on.
abbrev pub Climbs : ℕ → List FencePointer → Type 0
Climbs lo [] = Unit
Climbs lo (f ∷ fs) = (lo ≤ rank f.key) × Climbs (suc (rank f.key)) fs

Climbs-second :
    (lo : ℕ) (fs : List FencePointer)
    → Climbs lo fs
    → 1 < length fs
    → rank (key_at fs 0) < rank (key_at fs 1)
Climbs-second lo [] c h = elim h [ ]
Climbs-second lo (f ∷ []) c h = absurd (omega arith)
Climbs-second lo (f ∷ g ∷ fs) c h = c.1.0

module _ (fs : List FencePointer) (key : ℕ) where
  search_loop-IsChoice :
      (fuel left right : ℕ)
      → left ≤ right
      → right - left < fuel
      → right < length fs
      → rank (key_at fs left) ≤ rank key
      → (suc right < length fs → rank key < rank (key_at fs (suc right)))
      → (i : ℕ) × (search_loop fuel fs key left right ≡ ok i) × IsChoice fs key i
  unfolding search_loop
  search_loop-IsChoice zero left right o m h lower upper = elim m [ ]
  search_loop-IsChoice (suc fuel) left right o m h lower upper =
      elim (Bool-cases (ltb left right)) [
        | inr done ↦
            let e : left ≡ right = ground arith in
            (left, rw done, record { inside = omega arith; from = inr lower; upto = rw e upper })
        | inl more ↦
            let mid = left + (right - left + 1) / 2 in
            let below : left < right = ground arith in
            let read = get_elem?-eq-get_or fs mid (fence 0 0) (omega arith) in
            rw (more, read)
              (elim (Bool-cases (le64 (key_at fs mid) key)) [
                | inl up ↦ rw up (
                    search_loop-IsChoice fuel mid right (omega arith) (omega arith) h (ground arith)
                      upper)
                | inr down ↦ rw down (
                    search_loop-IsChoice fuel left (mid - 1) (omega arith) (omega arith)
                      (omega arith) lower
                      (λ _. let e : suc (mid - 1) ≡ mid = omega arith in rw e (ground arith)))
              ])
      ]

  -- On at least one entry, with ascending keys, the search ends within its rounds and stays inside the
  -- array, and its result is the last entry with a key not above the one sought (the first entry where
  -- there is none).
  pub binary_search-IsChoice :
      (lo : ℕ)
      → Climbs lo fs
      → 0 < length fs
      → (i : ℕ) × (binary_search fs key ≡ ok i) × IsChoice fs key i
  unfolding binary_search
  binary_search-IsChoice lo c h =
      let first = get_elem?-eq-get_or fs 0 (fence 0 0) h in
      let last = get_elem?-eq-get_or fs (length fs - 1) (fence 0 0) (omega arith) in
      rw (first, last)
        (elim (Bool-cases (lt64 key (key_at fs 0))) [
          | inl under ↦ rw under (
            0,
            refl,
            record {
              inside = h;
              from = inl refl;
              upto = λ b. ground (arith, Climbs-second lo fs c b);
            },
          )
          | inr not_under ↦ rw not_under (elim (Bool-cases (le64 (key_at fs (length fs - 1)) key)) [
            | inl over ↦ rw over (
              length fs - 1,
              refl,
              record {
                inside = omega arith;
                from = inr (ground arith);
                upto = λ b. absurd (omega arith);
              },
            )
            | inr within ↦ rw within (
                search_loop-IsChoice (length fs) 0 (length fs - 1) (omega arith) (omega arith)
                  (omega arith) (ground arith) (λ b. absurd (omega arith)))
          ])
        ])
