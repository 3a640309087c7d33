-- ===== src/Fence/Index.antt =====
-- What the entries of `FencePointers` say of the run that they index.
use cs.Prelude.{
  ℕ, zero, suc, ◌+◌, ◌*◌, ◌≤◌, ◌<◌, ◌≡◌, refl, List, [], ◌∷◌, arith, length, get_or, All, take,
  drop,
}
use cs.Int64.{rank}
use cs.Pair.{KeyValuePair, Ascends}
use cs.Pair.Order.{Ascends-mono, Ascends-All}
use cs.Fence.{FencePointer, fence}
use cs.Fence.Search.{key_at, Climbs}

-- The entries name some of the pairs, in their order, each with its offset in a file in which the
-- first pair stands at `at`.
pub data Indexes : ℕ → List KeyValuePair → List FencePointer → Type 0 where
  nil : {at : ℕ} → Indexes at [] []
  skip :
      {at : ℕ} {p : KeyValuePair} {ps : List KeyValuePair} {fs : List FencePointer}
      → Indexes (at + 16) ps fs
      → Indexes at (p ∷ ps) fs
  mark :
      {at : ℕ} {p : KeyValuePair} {ps : List KeyValuePair} {fs : List FencePointer}
      → Indexes (at + 16) ps fs
      → Indexes at (p ∷ ps) (fence p.key at ∷ fs)

-- A run is indexed from its first pair on.
pub data IsIndexOf : List KeyValuePair → List FencePointer → Type 0 where
  none_left : IsIndexOf [] []
  first :
      {p : KeyValuePair} {ps : List KeyValuePair} {fs : List FencePointer}
      → Indexes 16 ps fs
      → IsIndexOf (p ∷ ps) (fence p.key 0 ∷ fs)

pub Indexes-Climbs :
    {at : ℕ} {ps : List KeyValuePair} {fs : List FencePointer} (lo : ℕ)
    → Indexes at ps fs
    → Ascends lo ps
    → Climbs lo fs
Indexes-Climbs lo nil a = tt
Indexes-Climbs lo (skip {p = p} {ps = ps} x) a =
    Indexes-Climbs lo x (Ascends-mono lo (suc (rank p.key)) ps (omega arith) a.1)
Indexes-Climbs lo (mark {p = p} x) a = (a.0, Indexes-Climbs (suc (rank p.key)) x a.1)

-- Where an entry points: its pair stands at its offset, with smaller keys in front of it only.
pub record PointsAt (at : ℕ) (ps : List KeyValuePair) (f : FencePointer) : Type 0 where
  pub index : ℕ
  pub place : f.offset ≡ at + 16 * index
  pub before : All (λ p. rank p.key < rank f.key) (take index ps)
  pub after : All (λ p. rank f.key ≤ rank p.key) (drop index ps)

Indexes-lower :
    {at : ℕ} {ps : List KeyValuePair} {fs : List FencePointer} (lo j : ℕ)
    → Indexes at ps fs
    → Ascends lo ps
    → j < length fs
    → lo ≤ rank (key_at fs j)
Indexes-lower lo j nil a h = elim h [ ]
Indexes-lower lo j (skip {p = p} x) a h = omega (arith, Indexes-lower (suc (rank p.key)) j x a.1 h)
Indexes-lower lo zero (mark x) a h = a.0
Indexes-lower lo (suc j) (mark {p = p} x) a h =
    omega (arith, Indexes-lower (suc (rank p.key)) j x a.1 (omega arith))

-- An entry for the rest of the run, seen from one pair earlier.
PointsAt-suc :
    (at : ℕ) (p : KeyValuePair) (ps : List KeyValuePair) (f : FencePointer)
    → rank p.key < rank f.key
    → PointsAt (at + 16) ps f
    → PointsAt at (p ∷ ps) f
PointsAt-suc at p ps f h x = record {
  index = suc x.index;
  place = omega (arith, x.place);
  before = (h, x.before);
  after = x.after;
}

pub Indexes-PointsAt :
    {at : ℕ} {ps : List KeyValuePair} {fs : List FencePointer} (lo j : ℕ)
    → Indexes at ps fs
    → Ascends lo ps
    → j < length fs
    → PointsAt at ps (get_or fs j (fence 0 0))
Indexes-PointsAt lo j nil a h = elim h [ ]
Indexes-PointsAt {at} lo j (skip {p = p} {ps = ps} {fs = fs} x) a h =
    PointsAt-suc at p ps (get_or fs j (fence 0 0)) (Indexes-lower (suc (rank p.key)) j x a.1 h)
      (Indexes-PointsAt (suc (rank p.key)) j x a.1 h)
Indexes-PointsAt {at} lo zero (mark {p = p} {ps = ps} x) a h = record {
  index = 0;
  place = omega arith;
  before = tt;
  after = (
    omega arith,
    Ascends-All (rank p.key) ps (Ascends-mono _ (suc (rank p.key)) ps (omega arith) a.1),
  );
}
Indexes-PointsAt {at} lo (suc j) (mark {p = p} {ps = ps} {fs = fs} x) a h =
    PointsAt-suc at p ps (get_or fs j (fence 0 0))
      (Indexes-lower (suc (rank p.key)) j x a.1 (omega arith))
      (Indexes-PointsAt (suc (rank p.key)) j x a.1 (omega arith))

pub IsIndexOf-Indexes :
    {ps : List KeyValuePair} {fs : List FencePointer} → IsIndexOf ps fs → Indexes 0 ps fs
IsIndexOf-Indexes none_left = nil
IsIndexOf-Indexes (first x) = mark x

pub IsIndexOf-offset :
    {ps : List KeyValuePair} {f : FencePointer} {fs : List FencePointer}
    → IsIndexOf ps (f ∷ fs)
    → f.offset ≡ 0
IsIndexOf-offset (first x) = refl

pub IsIndexOf-nil : {ps : List KeyValuePair} → IsIndexOf ps [] → ps ≡ []
IsIndexOf-nil none_left = refl
