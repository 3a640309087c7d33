-- ===== src/Generators/Copies.antt =====
-- Counting pairs, whatever their order.
use mathlib.Core.List.{Perm, Permᴰ}
use mathlib.Core.Logic.{∥∥₁_elim}
use native.Mathlib.Nat.{ℕ_set}
use cs.Prelude.{
  ℕ, ◌+◌, ◌≡◌, refl, sym, ap, ◌∙◌, List, [], ◌∷◌, ◌++◌, Bool, ◌==◌, if◌then◌else◌, arith, length,
}
use cs.Pair.{KeyValuePair}

-- How often a key stands in pairs.
unfoldable pub copies : ℕ → List KeyValuePair → ℕ
copies k [] = 0
copies k (p ∷ ps) = (if p.key == k then 1 else 0) + copies k ps

abbrev pub mark : Bool → ℕ
mark b = if b then 1 else 0

pub copies-append :
    (k : ℕ) (ps qs : List KeyValuePair) → copies k (ps ++ qs) ≡ copies k ps + copies k qs
unfolding copies
copies-append k [] qs = omega arith
copies-append k (p ∷ ps) qs = omega (arith, copies-append k ps qs)

-- What counts the pairs with a property does not see their order.
total : (KeyValuePair → ℕ) → List KeyValuePair → ℕ
total f [] = 0
total f (p ∷ ps) = f p + total f ps

total-Permᴰ :
    (f : KeyValuePair → ℕ) {ps qs : List KeyValuePair} → Permᴰ ps qs → total f ps ≡ total f qs
unfolding total
total-Permᴰ f Permᴰ.nil = refl
total-Permᴰ f (Permᴰ.cons e d) = omega (arith, ap f e, total-Permᴰ f d)
total-Permᴰ f (Permᴰ.swap e e') = omega (arith, ap f e, ap f e')
total-Permᴰ f (Permᴰ.trans d d') = total-Permᴰ f d ∙ total-Permᴰ f d'

total-Perm :
    (f : KeyValuePair → ℕ) (ps qs : List KeyValuePair) → Perm ps qs → total f ps ≡ total f qs
total-Perm f ps qs p = ∥∥₁_elim p (ℕ_set (total f ps) (total f qs)) (total-Permᴰ f)

copies-total :
    (k : ℕ) (ps : List KeyValuePair) → copies k ps ≡ total (λ p. if p.key == k then 1 else 0) ps
unfolding copies total
copies-total k [] = refl
copies-total k (p ∷ ps) = omega (arith, copies-total k ps)

length-total : (ps : List KeyValuePair) → length ps ≡ total (λ p. 1) ps
unfolding total
length-total [] = refl
length-total (p ∷ ps) = omega (arith, length-total ps)

pub copies-Perm : (k : ℕ) (ps qs : List KeyValuePair) → Perm ps qs → copies k ps ≡ copies k qs
copies-Perm k ps qs p = copies-total k ps ∙ total-Perm _ ps qs p ∙ sym (copies-total k qs)

pub length-Perm : (ps qs : List KeyValuePair) → Perm ps qs → length ps ≡ length qs
length-Perm ps qs p = length-total ps ∙ total-Perm _ ps qs p ∙ sym (length-total qs)
