-- ===== src/Pool/Total.antt =====
-- Sums over the workers of a pool.
use cs.Prelude.{
  ℕ, zero, suc, ◌+◌, ◌≡◌, ap, List, [], ◌∷◌, some, get_elem?, set, arith, some-injective,
}
use cs.Pool.{Worker}

unfoldable pub total : (Worker → ℕ) → List Worker → ℕ
total f [] = 0
total f (w ∷ ws) = f w + total f ws

-- A worker that moves on.
pub total-set :
    (f : Worker → ℕ) (ws : List Worker) (i : ℕ) (w w' : Worker)
    → get_elem? ws i ≡ some w
    → total f (set ws i w') + f w ≡ total f ws + f w'
unfolding total
total-set f [] i w w' e = cc
total-set f (v ∷ ws) zero w w' e = omega (arith, ap f (some-injective e))
total-set f (v ∷ ws) (suc i) w w' e = omega (arith, total-set f ws i w w' e)
