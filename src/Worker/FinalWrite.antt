-- ===== src/Worker/FinalWrite.antt =====
-- src/url_crawler_service/worker.py: `_write_terminal_state`, which retries the final write until the
-- lease would have expired anyway.
use url_crawler.Base.{
  ℕ, zero, suc, ◌+◌, ◌≤◌, ◌<◌, Option, none, some, Bool, ◌≡◌, inl, inr, refl, arith, leb,
  if◌then◌else◌, Bool-cases, Option-cases, subst, dec_lt,
}

-- `calls n` is what the n-th call of `finish` returns, `none` if it raises, and `clock n` the clock
-- after it raised; `start` is the clock at the beginning.
module _ (calls : ℕ → Option Bool) (clock : ℕ → ℕ) (start lease : ℕ) where
  -- The n-th round of the loop and those after it; `none` means that the fuel ran out.
  unfoldable pub write_from : ℕ → ℕ → Option (Option Bool)
  write_from zero n = none
  write_from (suc fuel) n =
      let more = write_from fuel (suc n) in
      elim (calls n) [
        | some recorded ↦ some (some recorded)
        | none ↦ if leb (start + lease) (clock n) then some none else more
      ]

  -- With a heartbeat's sleep after each round the lease has passed after `lease` rounds.
  unfoldable pub write_terminal_state : Option (Option Bool)
  unfolding write_from
  write_terminal_state = write_from (lease + 1) 0

  -- All calls before the n-th raised.
  abbrev pub AllRaised : ℕ → Type 0
  AllRaised n = (m : ℕ) → m < n → calls m ≡ none

  -- The answer of the first call that returned, or none did before the lease was over.
  abbrev pub Ended : Option Bool → Type 0
  Ended (some recorded) = (n : ℕ) × (calls n ≡ some recorded) × AllRaised n
  Ended none = (n : ℕ) × AllRaised (suc n) × (start + lease ≤ clock n)

  raised_more : (n : ℕ) → AllRaised n → calls n ≡ none → AllRaised (suc n)
  raised_more n all e m l = elim (dec_lt m n) [
    | yes h ↦ all m h
    | no h ↦ let q : n ≡ m = omega (arith, l) in subst (λ k. calls k ≡ none) q e
  ]

  module _ (heartbeat : ℕ) (positive : 0 < heartbeat) (begun : start ≤ clock 0)
      (slept : (n : ℕ) → clock n + heartbeat ≤ clock (suc n)) where
    clock-ge : (n : ℕ) → start + n ≤ clock n
    clock-ge zero = omega (arith, begun)
    clock-ge (suc n) = omega (arith, clock-ge n, slept n, positive)

    write_from-Ended :
        (fuel n : ℕ)
        → n + fuel ≡ lease + 1
        → n ≤ lease
        → AllRaised n
        → (r : Option Bool) × (write_from fuel n ≡ some r) × Ended r
    unfolding write_from
    write_from-Ended zero n f l all = absurd (omega (arith, f, l))
    write_from-Ended (suc fuel) n f l all = elim (Option-cases (calls n)) [
      | inr (b, e) ↦ (some b, rw (write_from, e) refl, (n, e, all))
      | inl e ↦ elim (Bool-cases (leb (start + lease) (clock n))) [
        | inl d ↦ (none, rw (write_from, e, d) refl, (n, raised_more n all e, ground arith))
        | inr d ↦
            rw (write_from, e, d)
              (write_from-Ended fuel (suc n) (omega (arith, f)) (ground (arith, clock-ge n))
                (raised_more n all e))
      ]
    ]

    -- The final write always comes to an end: with the answer of the first call that returned, all
    -- earlier ones having raised, or without one, after every call raised until the lease was over.
    pub write_terminal_state-Ended : (r : Option Bool) × (write_terminal_state ≡ some r) × Ended r
    unfolding write_terminal_state
    write_terminal_state-Ended =
        write_from-Ended (lease + 1) 0 (omega arith) (omega arith)
          (λ m l. absurd (omega (arith, l)))
