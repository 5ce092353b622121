-- ===== src/Schemas/Built.antt =====
-- That a worker can build what the API of src/url_crawler_service/schemas.py accepted.
use url_crawler.Base.{Bool, true, false, not, ◌&&◌, ◌≡◌, both, inl, inr, ok, arith, refl, ℕ}
use url_crawler.Config.Floats.{ℤ, pos, int_lt, seconds, zero_float, float_le, float_lt}
use url_crawler.Config.{too_few}
use url_crawler.Config.Valid.{
  int_lt-Ge, too_few-GeIfSet, float_le-Positive, InRange, post_init-Decided,
}
use url_crawler.Schemas.{
  CrawlCreate, one_to, short_timeout, accepts, to_config, with_defaults, build_config,
}

negated : (b : Bool) → not b ≡ true → b ≡ false
negated true h = cc
negated false h = refl

at_least : (most : ℕ) (n : ℤ) → one_to most n ≡ true → int_lt n (pos 1) ≡ false
at_least most n h =
    negated (int_lt n (pos 1)) (both (not (int_lt n (pos 1))) (not (int_lt (pos most) n)) h).0

accepts-InRange :
    (body : CrawlCreate) → accepts body ≡ true → InRange (with_defaults (to_config body))
unfolding accepts
accepts-InRange body h =
    let counts = one_to 50 body.concurrency in
    let pages = not (too_few body.max_pages) in
    let bytes = one_to 100000000 body.max_bytes in
    let (h1, rest) = both counts (short_timeout body.timeout && (pages && bytes)) h in
    let (h2, last) = both (short_timeout body.timeout) (pages && bytes) rest in
    let (h3, h4) = both pages bytes last in
    let (after, within) =
      both (not (float_le body.timeout zero_float)) (not (float_lt (seconds 60) body.timeout)) h2 in
    (
      (int_lt-Ge 1 body.concurrency).0 (at_least 50 body.concurrency h1),
      (
        (float_le-Positive body.timeout).0 (negated (float_le body.timeout zero_float) after),
        (
          (too_few-GeIfSet body.max_pages).0 (negated (too_few body.max_pages) h3),
          (
            (int_lt-Ge 1 body.max_bytes).0 (at_least 100000000 body.max_bytes h4),
            (
              omega arith,
              (
                negated (float_lt (seconds 60) body.timeout) within,
                (omega arith, (omega arith, tt)),
              ),
            ),
          ),
        ),
      ),
    )

-- A request that is accepted is stored as a configuration that the worker builds without an error.
pub build_config-accepts :
    (body : CrawlCreate)
    → accepts body ≡ true
    → build_config (to_config body) ≡ ok (with_defaults (to_config body))
unfolding build_config
build_config-accepts body h = elim (post_init-Decided (with_defaults (to_config body))) [
  | inl (e, _) ↦ e
  | inr (x, e, n) ↦ elim (n (accepts-InRange body h)) [ ]
]
