-- ===== src/Settings/Usable.antt =====
-- What src/url_crawler_service/settings.py promises of the settings that it returns.
use url_crawler.Base.{
  ◌<◌, [], Option, none, some, false, not, ◌||◌, ◌≡◌, ◌↔◌, inl, inr, refl, arith, Text, codes,
  text_eq, ok, Decided, check-Decided, >>=-Returns, Returns, ◌≢◌, Returns-imp, ◌∷◌, Option-cases,
}
use url_crawler.Config.Floats.{
  ℤ, pos, negsuc, int_lt, Float, finite, inf, minus_inf, nan, zero_float, float_lt, float_le,
  isfinite,
}
use url_crawler.Config.Valid.{Ge, int_lt-Ge}
use url_crawler.Settings.{
  Settings, is_port, post_init, defaults, read_float, read_int, overridden, from_env,
}

-- A finite number above zero.
abbrev pub Finite : Float → Type 0
Finite (finite (pos m)) = 0 < m
Finite _ = ⊥

abbrev pub IsPort : ℤ → Type 0
IsPort (pos n) = (0 < n) × (n < 65536)
IsPort (negsuc n) = ⊥

positive_iff : (x : Float) → ((not (isfinite x) || float_le x zero_float) ≡ false) ↔ Finite x
unfolding float_le int_lt
positive_iff (finite (pos m)) = ground arith
positive_iff (finite (negsuc m)) = ((λ e. cc), (λ h. elim h [ ]))
positive_iff inf = ((λ e. cc), (λ h. elim h [ ]))
positive_iff minus_inf = ((λ e. cc), (λ h. elim h [ ]))
positive_iff nan = ((λ e. cc), (λ h. elim h [ ]))

IsPort-iff : (n : ℤ) → (not (is_port n) ≡ false) ↔ IsPort n
unfolding int_lt
IsPort-iff (pos n) = ground arith
IsPort-iff (negsuc n) = ((λ e. cc), (λ h. elim h [ ]))

-- The durations are finite and positive, the counts are at least 1, the port is one, and the lease is
-- no shorter than a heartbeat.
abbrev pub IsUsable : Settings → Type 0
IsUsable s =
    Finite s.worker_poll_seconds
    × (Finite s.heartbeat_seconds
        × (Finite s.lease_seconds
            × (Finite s.page_flush_seconds
                × (Ge 1 s.max_attempts
                    × (Ge 1 s.page_batch_size
                        × (IsPort s.api_port
                            × ((float_lt s.lease_seconds s.heartbeat_seconds ≡ false)
                                × Unit {0})))))))

pub post_init-Decided : (s : Settings) → Decided (IsUsable s) (post_init s) s
unfolding post_init
post_init-Decided s = check-Decided _ _ _ s (positive_iff s.worker_poll_seconds) (
    check-Decided _ _ _ s (positive_iff s.heartbeat_seconds) (
      check-Decided _ _ _ s (positive_iff s.lease_seconds) (
        check-Decided _ _ _ s (positive_iff s.page_flush_seconds) (
          check-Decided _ _ _ s (int_lt-Ge 1 s.max_attempts) (
            check-Decided _ _ _ s (int_lt-Ge 1 s.page_batch_size) (
              check-Decided _ _ _ s (IsPort-iff s.api_port)
                (check-Decided _ _ _ s ((λ e. e), (λ e. e)) (inl (refl, tt)))))))))

post_init-Returns :
    (P : Settings → Type 0) (s : Settings) → (IsUsable s → P s) → Returns P (post_init s)
post_init-Returns P s k = elim (post_init-Decided s) [
  | inl (q, u) ↦ rw q (k u)
  | inr (x, q, n) ↦ rw q tt
]

module _ (float : Text → Option Float) (int : Text → Option ℤ) (env : Text → Option Text) where
  -- Usable settings with the URL of `d`.
  abbrev FromEnv : Settings → Settings → Type 0
  FromEnv d t = IsUsable t × (t.database_url ≡ d.database_url)

  overridden-FromEnv : (d : Settings) → Returns (FromEnv d) (overridden float int env d)
  unfolding overridden
  overridden-FromEnv d =
      >>=-Returns (FromEnv d)
        (read_float float int env (codes "WORKER_POLL_SECONDS") d.worker_poll_seconds) _
        (λ poll.
          >>=-Returns (FromEnv d)
            (read_float float int env (codes "HEARTBEAT_SECONDS") d.heartbeat_seconds) _
            (λ heartbeat.
              >>=-Returns (FromEnv d)
                (read_float float int env (codes "LEASE_SECONDS") d.lease_seconds) _
                (λ lease.
                  >>=-Returns (FromEnv d)
                    (read_int float int env (codes "MAX_ATTEMPTS") d.max_attempts) _
                    (λ attempts.
                      >>=-Returns (FromEnv d)
                        (read_int float int env (codes "PAGE_BATCH_SIZE") d.page_batch_size) _
                        (λ batch.
                          >>=-Returns (FromEnv d)
                            (read_float float int env (codes "PAGE_FLUSH_SECONDS")
                              d.page_flush_seconds)
                            _
                            (λ flush.
                              >>=-Returns (FromEnv d)
                                (read_int float int env (codes "API_PORT") d.api_port) _
                                (λ port. post_init-Returns (FromEnv d) _ (λ u. (u, refl)))))))))

  -- The settings have the URL of the environment, which is not empty.
  abbrev pub Provided : Settings → Type 0
  Provided t =
      IsUsable t × (env (codes "DATABASE_URL") ≡ some t.database_url) × (t.database_url ≢ [])

  -- Settings that `from_env` returns are usable, whatever the environment holds, and carry the
  -- environment's database URL, which is there and not empty.
  pub from_env-Provided : Returns Provided (from_env float int env)
  unfolding from_env text_eq
  from_env-Provided = elim (Option-cases (env (codes "DATABASE_URL"))) [
    | inl e ↦ rw (from_env, e) tt
    | inr ([], e) ↦ rw (from_env, e) tt
    | inr (c ∷ url, e) ↦ elim (post_init-Decided (defaults (c ∷ url))) [
      | inr (x, q, n) ↦ rw (from_env, e, q) tt
      | inl (q, u) ↦
          rw (from_env, e, q)
            (Returns-imp (FromEnv (defaults (c ∷ url))) Provided
              (overridden float int env (defaults (c ∷ url))) (λ t (h, w). (h, rw w e, (λ z. cc)))
              (overridden-FromEnv (defaults (c ∷ url))))
    ]
  ]

  -- An environment with a database URL that is not empty, and with no other setting, gives the default
  -- settings with that URL.
  pub from_env-defaults :
      (url : Text)
      → url ≢ []
      → env (codes "DATABASE_URL") ≡ some url
      → ((name : Text) → text_eq name (codes "DATABASE_URL") ≡ false → env name ≡ none)
      → from_env float int env ≡ ok (defaults url)
  unfolding from_env overridden read_float read_int post_init text_eq float_le float_lt int_lt
  from_env-defaults [] ne e k = elim (ne refl) [ ]
  from_env-defaults (c ∷ url) ne e k =
      rw
        (
          e,
          k (codes "WORKER_POLL_SECONDS") refl,
          k (codes "HEARTBEAT_SECONDS") refl,
          k (codes "LEASE_SECONDS") refl,
          k (codes "MAX_ATTEMPTS") refl,
          k (codes "PAGE_BATCH_SIZE") refl,
          k (codes "PAGE_FLUSH_SECONDS") refl,
          k (codes "API_HOST") refl,
          k (codes "API_PORT") refl,
        )
        refl
