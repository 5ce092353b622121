-- ===== src/Crawler/Tasks.antt =====
-- Sums over the workers of src/url_crawler/crawler.py's pool.
use url_crawler.Base.{ℕ, zero, suc, ◌+◌, List, [], ◌∷◌, some, arith, ◌≡◌, get_elem?, set, replicate}
use url_crawler.Crawler.Workers.{Task}

-- The sum of a weight over the workers.
unfoldable pub total : (Task → ℕ) → List Task → ℕ
total w [] = 0
total w (t ∷ ts) = w t + total w ts

-- When one worker changes, the sum changes by that worker's weight.
pub total-set :
    (w : Task → ℕ) (ts : List Task) (i : ℕ) (t t' : Task)
    → get_elem? ts i ≡ some t
    → total w (set ts i t') + w t ≡ total w ts + w t'
unfolding total
total-set w [] i t t' h = ground arith
total-set w (s ∷ ts) zero t t' h = ground arith
total-set w (s ∷ ts) (suc i) t t' h = omega (arith, total-set w ts i t t' h)

pub total-replicate : (w : Task → ℕ) (n : ℕ) (t : Task) → w t ≡ 0 → total w (replicate n t) ≡ 0
unfolding total
total-replicate w zero t h = omega arith
total-replicate w (suc n) t h = omega (arith, total-replicate w n t h)
