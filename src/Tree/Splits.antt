-- ===== src/Tree/Splits.antt =====
-- A tree with one of its levels picked out.
use cs.Prelude.{
  ℕ, suc, ◌+◌, ◌≡◌, refl, ap, List, [], ◌∷◌, ◌++◌, some, arith, length, get_elem?, set,
}
use cs.Pair.{KeyValuePair, lookup}
use cs.Store.{Store}
use cs.Level.{Level}
use cs.Tree.Holds.{LevelsHold, newest_of_levels, newest_of_runs, first_some}
use cs.Tree.Names.{LevelsNamed}

module _ {ℓ} {A : Type ℓ} where
  pub get_elem?-middle :
      (xs : List A) (y : A) (ys : List A) → get_elem? (xs ++ y ∷ ys) (length xs) ≡ some y
  get_elem?-middle [] y ys = refl
  get_elem?-middle (x ∷ xs) y ys = get_elem?-middle xs y ys

  pub set-middle :
      (xs : List A) (y z : A) (ys : List A) → set (xs ++ y ∷ ys) (length xs) z ≡ xs ++ z ∷ ys
  set-middle [] y z ys = refl
  set-middle (x ∷ xs) y z ys = ap (λ zs. x ∷ zs) (set-middle xs y z ys)

  pub get_elem?-behind :
      (xs : List A) (n : ℕ) (ys : List A) → get_elem? (xs ++ ys) (length xs + n) ≡ get_elem? ys n
  get_elem?-behind [] n ys = let z : 0 + n ≡ n = omega arith in ap (get_elem? ys) z
  get_elem?-behind (x ∷ xs) n ys =
      let z : suc (length xs) + n ≡ suc (length xs + n) = omega arith in
      rw z (get_elem?-behind xs n ys)

  pub set-behind :
      (xs : List A) (n : ℕ) (z : A) (ys : List A)
      → set (xs ++ ys) (length xs + n) z ≡ xs ++ set ys n z
  set-behind [] n y ys = let z : 0 + n ≡ n = omega arith in ap (λ i. set ys i y) z
  set-behind (x ∷ xs) n y ys =
      let z : suc (length xs) + n ≡ suc (length xs + n) = omega arith in
      rw z (ap (λ zs. x ∷ zs) (set-behind xs n y ys))

pub LevelsHold-append :
    (s : Store) (above ls : List Level) (apsss psss : List (List (List KeyValuePair)))
    → LevelsHold s above apsss
    → LevelsHold s ls psss
    → LevelsHold s (above ++ ls) (apsss ++ psss)
LevelsHold-append s [] ls [] psss a h = h
LevelsHold-append s [] ls (p ∷ apsss) psss a h = absurd a
LevelsHold-append s (x ∷ above) ls [] psss a h = absurd a
LevelsHold-append s (x ∷ above) ls (p ∷ apsss) psss a h =
    (a.0, LevelsHold-append s above ls apsss psss a.1 h)

pub LevelsHold-split :
    (s : Store) (above ls : List Level) (apsss psss : List (List (List KeyValuePair)))
    → length apsss ≡ length above
    → LevelsHold s (above ++ ls) (apsss ++ psss)
    → LevelsHold s above apsss × LevelsHold s ls psss
LevelsHold-split s [] ls [] psss e h = (tt, h)
LevelsHold-split s [] ls (p ∷ apsss) psss e h = absurd (omega (arith, e))
LevelsHold-split s (x ∷ above) ls [] psss e h = absurd (omega (arith, e))
LevelsHold-split s (x ∷ above) ls (p ∷ apsss) psss e h =
    let (a, b) = LevelsHold-split s above ls apsss psss (omega arith) h.1 in ((h.0, a), b)

pub LevelsNamed-append :
    (i j : ℕ) (above ls : List Level)
    → i + length above ≡ j
    → LevelsNamed i above
    → LevelsNamed j ls
    → LevelsNamed i (above ++ ls)
LevelsNamed-append i j [] ls e a h = let z : i ≡ j = omega arith in rw z h
LevelsNamed-append i j (x ∷ above) ls e a h =
    (a.0, LevelsNamed-append (suc i) j above ls (omega arith) a.1 h)

pub LevelsNamed-split :
    (i j : ℕ) (above ls : List Level)
    → i + length above ≡ j
    → LevelsNamed i (above ++ ls)
    → LevelsNamed i above × LevelsNamed j ls
LevelsNamed-split i j [] ls e h = let z : j ≡ i = omega arith in (tt, rw z h)
LevelsNamed-split i j (x ∷ above) ls e h =
    let (a, b) = LevelsNamed-split (suc i) j above ls (omega arith) h.1 in ((h.0, a), b)

pub newest_of_levels-append :
    (k : ℕ) (apsss psss : List (List (List KeyValuePair)))
    → newest_of_levels k (apsss ++ psss)
      ≡ first_some (newest_of_levels k apsss) (newest_of_levels k psss)
unfolding newest_of_levels
newest_of_levels-append k [] psss = refl
newest_of_levels-append k (p ∷ apsss) psss = ground (arith, newest_of_levels-append k apsss psss)

-- A run at the end of a level is the newest.
pub newest_of_runs-snoc :
    (k : ℕ) (pss : List (List KeyValuePair)) (ps : List KeyValuePair)
    → newest_of_runs k (pss ++ ps ∷ []) ≡ first_some (lookup k ps) (newest_of_runs k pss)
unfolding newest_of_runs
newest_of_runs-snoc k [] ps = ground arith
newest_of_runs-snoc k (qs ∷ pss) ps = ground (arith, newest_of_runs-snoc k pss ps)
