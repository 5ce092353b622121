-- ===== src/Fetcher/Attempts.antt =====
-- How often `fetch` of src/url_crawler/fetcher.py asks, and how long it waits between the attempts.
use url_crawler.Base.{
  ℕ, zero, suc, ◌+◌, ◌≤◌, ◌<◌, max, List, [], ◌∷◌, ◌++◌, Option, none, some, Bool, true, false, ◌≡◌,
  refl, arith, Text, length, length-append, All, All-append, Result, ok, raise, Option-cases, inl,
  inr, Bool-cases, ◌>>=◌, leb, codes, decimal,
}
use url_crawler.Models.{Fetched, fetched, failed, http_status}
use url_crawler.Retry.{HttpxClass, max_retry_after, retry_delay-bounds}
use url_crawler.Fetcher.Bodies.{Failure, Body, read_bounded}
use url_crawler.Fetcher.{
  Response, Answer, responded, refused, Fetcher, Attempt, done, retry, error_kind, wait_or,
  delay_of, handle_failure, message_or_name, with_body, within_declared, declares_more_than, handle,
  attempt_once, Run, fetch_from, fetch, too_large_error, or_else, is_redirect_status, is_html,
  mime_type,
}

abbrev pub attempts_of : Fetched → ℕ
attempts_of (fetched r) = r.attempts
attempts_of (failed e) = e.attempts

module _ {S : Type 0} (f : Fetcher S) (url : Text)
    (bounded : (n cap : ℕ) → f.draw n cap ≤ cap) where
  -- An attempt's outcome counts it, and a retry is allowed and short.
  abbrev Granted : ℕ → Result Attempt → Type 0
  Granted n (raise e) = Unit
  Granted n (ok (done x)) = attempts_of x ≡ n
  Granted n (ok (retry delay)) = (n < f.max_attempts) × (delay ≤ max_retry_after)

  wait_or-Granted :
      (x : Fetched) (status : Option ℕ) (exc : Option HttpxClass) (n : ℕ)
      (retry_after : Option Text)
      → attempts_of x ≡ n
      → Granted n (ok (wait_or f url (done x) (delay_of f url status exc n retry_after)))
  wait_or-Granted x status exc n retry_after h =
      elim (Option-cases (delay_of f url status exc n retry_after)) [
        | inl e ↦ rw e h
        | inr (delay, e) ↦
            let b =
              retry_delay-bounds f.draw bounded f.http_date status exc n f.max_attempts retry_after
                (f.now n) delay e in
            rw e (b.0, b.3)
      ]

  handle_failure-Granted : (e : Failure) (n : ℕ) → Granted n (handle_failure f url e n)
  unfolding handle_failure
  handle_failure-Granted e n = elim (Option-cases (error_kind e.class)) [
    | inl q ↦ rw (handle_failure, q) tt
    | inr (kind, q) ↦
        rw (handle_failure, q)
          (wait_or-Granted
            (failed record {
              url = url;
              kind = kind;
              status = none;
              message = message_or_name f url e.message e.name;
              attempts = n;
            })
            none (some e.class) n none refl)
  ]

  with_body-Granted :
      (r : Response) (mime : Text) (n : ℕ) (b : Body) → Granted n (with_body f url r mime n b)
  unfolding too_large_error
  with_body-Granted r mime n (Body.broken e) = handle_failure-Granted e n
  with_body-Granted r mime n (Body.read body true) = refl
  with_body-Granted r mime n (Body.read body false) = refl

  -- The last gate, whether the announced length passes, fails or raises.
  declared-Granted :
      (r : Response) (mime : Text) (n : ℕ) (d : Result Bool)
      → Granted n (d >>= within_declared f url r mime n)
  unfolding within_declared too_large_error
  declared-Granted r mime n (raise e) = tt
  declared-Granted r mime n (ok true) = refl
  declared-Granted r mime n (ok false) =
      with_body-Granted r mime n
        (read_bounded f.zlib f.max_bytes (or_else r.content_encoding []) r.stream)

  handle-Granted : (r : Response) (n : ℕ) → Granted n (handle f url r n)
  unfolding handle
  handle-Granted r n = elim (Bool-cases (is_redirect_status r.status)) [
    | inl a ↦ rw (handle, a) refl
    | inr a ↦ elim (Bool-cases (leb 400 r.status)) [
      | inl b ↦
          rw (handle, a, b)
            (wait_or-Granted
              (failed record {
                url = url;
                kind = http_status;
                status = some r.status;
                message = codes "HTTP " ++ decimal r.status;
                attempts = n;
              })
              (some r.status) none n r.retry_after refl)
      | inr b ↦ elim (Bool-cases (is_html (mime_type r))) [
        | inl c ↦
            rw (handle, a, b, c)
              (declared-Granted r (mime_type r) n (declares_more_than f.max_bytes r))
        | inr c ↦ rw (handle, a, b, c) refl
      ]
    ]
  ]

  attempt_once-Granted : (a : Answer) (n : ℕ) → Granted n (attempt_once f url a n)
  unfolding attempt_once
  attempt_once-Granted (refused e) n = handle_failure-Granted e n
  attempt_once-Granted (responded r) n = handle-Granted r n

  -- A run of `fetch` that counts its attempts, waits briefly and stays within the limit.
  pub record Bounded (x : Run f url) : Type 0 where
    pub few : length x.slept < max 1 f.max_attempts
    pub short : All (λ delay. delay ≤ max_retry_after) x.slept
    pub counted : (y : Fetched) → x.value ≡ ok y → attempts_of y ≡ length x.slept + 1

  abbrev pub Returns : Option (Run f url) → Type 0
  Returns none = ⊥
  Returns (some x) = Bounded x

  -- One round ends the run, or leaves it to the rounds that follow.
  round-Returns :
      (client : ℕ → Answer) (fuel n : ℕ) (slept : List ℕ) (o : Result Attempt)
      → attempt_once f url (client n) n ≡ o
      → Granted n o
      → n ≡ length slept + 1
      → n ≤ max 1 f.max_attempts
      → All (λ delay. delay ≤ max_retry_after) slept
      → ((delay : ℕ)
          → n < f.max_attempts
          → delay ≤ max_retry_after
          → Returns (fetch_from f url client fuel (n + 1) (slept ++ delay ∷ [])))
      → Returns (fetch_from f url client (suc fuel) n slept)
  unfolding fetch_from
  round-Returns client fuel n slept (raise e) q g c l s next =
      rw (fetch_from, q)
        record { few = omega (arith, c, l); short = s; counted = λ y h. ground (arith, h) }
  round-Returns client fuel n slept (ok (done x)) q g c l s next =
      rw (fetch_from, q)
        record { few = omega (arith, c, l); short = s; counted = λ y h. ground (arith, h, g, c) }
  round-Returns client fuel n slept (ok (retry delay)) q g c l s next =
      rw (fetch_from, q) (next delay g.0 g.1)

  -- The loop before attempt n, with the fuel for the attempts that are left.
  fetch_from-Returns :
      (client : ℕ → Answer) (fuel n : ℕ) (slept : List ℕ)
      → n ≡ length slept + 1
      → n ≤ max 1 f.max_attempts
      → f.max_attempts + 2 ≤ n + fuel
      → All (λ delay. delay ≤ max_retry_after) slept
      → Returns (fetch_from f url client fuel n slept)
  unfolding fetch_from
  fetch_from-Returns client zero n slept c l e s = omega (arith, l, e)
  fetch_from-Returns client (suc fuel) n slept c l e s =
      round-Returns client fuel n slept (attempt_once f url (client n) n) refl
        (attempt_once-Granted (client n) n) c l s
        (λ delay below short.
          fetch_from-Returns client fuel (n + 1) (slept ++ delay ∷ [])
            (omega (arith, c, length-append slept (delay ∷ []))) (omega (arith, below))
            (omega (arith, e))
            (All-append (λ d. d ≤ max_retry_after) slept (delay ∷ []) s (short, tt)))

  -- Whatever the client answers, `fetch` ends (in a value or an exception): it makes at most
  -- `max_attempts` attempts, and one if that is 0, sleeps at most 30 seconds before each further one,
  -- and a result it returns counts the attempts made.
  pub fetch-Returns : (client : ℕ → Answer) → Returns (fetch f url client)
  unfolding fetch
  fetch-Returns client =
      fetch_from-Returns client (f.max_attempts + 1) 1 [] refl (omega arith) (omega arith) tt
