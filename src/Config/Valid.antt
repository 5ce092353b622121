-- ===== src/Config/Valid.antt =====
-- Which configurations src/url_crawler/config.py accepts.
use url_crawler.Base.{
  ℕ, ◌≤◌, ◌<◌, Option, none, some, false, ◌≡◌, ◌↔◌, inl, refl, arith, value_error, codes, Decided,
  check-Decided,
}
use url_crawler.Config.Floats.{
  ℤ, pos, negsuc, int_lt, Float, finite, inf, minus_inf, nan, zero_float, float_le, float_lt,
}
use url_crawler.Config.{CrawlConfig, too_few, post_init}

-- `n <= z`, and the same of a value that may be missing.
abbrev pub Ge : ℕ → ℤ → Type 0
Ge n (pos m) = n ≤ m
Ge n (negsuc m) = ⊥

abbrev pub GeIfSet : ℕ → Option ℤ → Type 0
GeIfSet n none = Unit {0}
GeIfSet n (some z) = Ge n z

-- A float above zero; a NaN is neither above nor below it, and passes.
abbrev pub Positive : Float → Type 0
Positive (finite (pos m)) = 0 < m
Positive (finite (negsuc m)) = ⊥
Positive inf = Unit {0}
Positive minus_inf = ⊥
Positive nan = Unit {0}

-- Not `budget < timeout`.
abbrev pub Covers : Float → Float → Type 0
Covers budget timeout = float_lt budget timeout ≡ false

pub int_lt-Ge : (n : ℕ) (z : ℤ) → (int_lt z (pos n) ≡ false) ↔ Ge n z
unfolding int_lt
int_lt-Ge n (pos m) = ground arith
int_lt-Ge n (negsuc m) = ((λ e. cc), (λ h. elim h [ ]))

pub too_few-GeIfSet : (z : Option ℤ) → (too_few z ≡ false) ↔ GeIfSet 1 z
too_few-GeIfSet none = ((λ e. tt), (λ h. refl))
too_few-GeIfSet (some z) = int_lt-Ge 1 z

pub float_le-Positive : (x : Float) → (float_le x zero_float ≡ false) ↔ Positive x
unfolding float_le int_lt
float_le-Positive (finite (pos m)) = ground arith
float_le-Positive (finite (negsuc m)) = ((λ e. cc), (λ h. elim h [ ]))
float_le-Positive inf = ((λ e. tt), (λ h. refl))
float_le-Positive minus_inf = ((λ e. cc), (λ h. elim h [ ]))
float_le-Positive nan = ((λ e. tt), (λ h. refl))

-- The ranges of the fields, in the order of the checks.
abbrev pub InRange : CrawlConfig → Type 0
InRange c =
    Ge 1 c.concurrency
    × (Positive c.timeout
        × (GeIfSet 1 c.max_pages
            × (Ge 1 c.max_bytes
                × (Positive c.request_budget
                    × (Covers c.request_budget c.timeout
                        × (Ge 0 c.max_seed_redirects × (Ge 1 c.failure_fuse × Unit {0})))))))

-- A configuration is accepted, unchanged, exactly when every field is in its range and the request
-- budget is not below the timeout, where a NaN passes; any other raises.
pub post_init-Decided : (c : CrawlConfig) → Decided (InRange c) (post_init c) c
unfolding post_init
post_init-Decided c =
    check-Decided (int_lt c.concurrency (pos 1)) (value_error (codes "concurrency must be >= 1")) _
      c (int_lt-Ge 1 c.concurrency)
      (check-Decided (float_le c.timeout zero_float) (value_error (codes "timeout must be > 0")) _ c
        (float_le-Positive c.timeout)
        (check-Decided (too_few c.max_pages) (value_error (codes "max_pages must be >= 1 when set"))
          _ c (too_few-GeIfSet c.max_pages)
          (check-Decided (int_lt c.max_bytes (pos 1)) (value_error (codes "max_bytes must be >= 1"))
            _ c (int_lt-Ge 1 c.max_bytes)
            (check-Decided (float_le c.request_budget zero_float)
              (value_error (codes "request_budget must be > 0")) _ c
              (float_le-Positive c.request_budget)
              (check-Decided (float_lt c.request_budget c.timeout)
                (value_error (codes "request_budget must be >= timeout")) _ c ((λ e. e), (λ e. e))
                (check-Decided (int_lt c.max_seed_redirects (pos 0))
                  (value_error (codes "max_seed_redirects must be >= 0")) _ c
                  (int_lt-Ge 0 c.max_seed_redirects)
                  (check-Decided (int_lt c.failure_fuse (pos 1))
                    (value_error (codes "failure_fuse must be >= 1")) _ c
                    (int_lt-Ge 1 c.failure_fuse) (inl (refl, tt)))))))))
