-- ===== src/Urls/Seed.antt =====
-- The seed that `prepare_seed` of src/url_crawler/urls.py lets through.
use url_crawler.Base.{
  ◌++◌, ◌≡◌, refl, Text, codes, lower, Bool-cases, Option-cases, inl, inr, ok, ◌>>=◌, text_eq,
  starts_with,
}
use url_crawler.Urls.{is_allowed, before_slashes, prepare_seed}

prepare_seed-default :
    (url : Text) → prepare_seed (codes "https://" ++ url) ≡ ok (codes "https://" ++ url)
unfolding prepare_seed before_slashes starts_with text_eq
prepare_seed-default url = refl

-- Preparing a seed that has been prepared changes nothing: a seed that is let through names a scheme
-- that is allowed.
pub prepare_seed-prepare_seed :
    (url : Text) → (prepare_seed url >>= prepare_seed) ≡ prepare_seed url
unfolding prepare_seed
prepare_seed-prepare_seed url = elim (Option-cases (before_slashes url)) [
  | inl e ↦ (rw (prepare_seed, e) (prepare_seed-default url))
  | inr (scheme, e) ↦ elim (Bool-cases (is_allowed (lower scheme))) [
    | inl a ↦ (rw (prepare_seed, e, a, e, a) refl)
    | inr a ↦ (rw (prepare_seed, e, a) refl)
  ]
]
