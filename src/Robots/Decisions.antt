-- ===== src/Robots/Decisions.antt =====
-- How src/url_crawler/robots.py decides between the rules that match.
use url_crawler.Base.{
  ℕ, ◌≤◌, List, [], ◌∷◌, true, false, ◌&&◌, ◌≡◌, ◌⊎◌, ◌↔◌, inl, inr, refl, arith, Text, leb, ◌==◌,
  select, any, All, Bool-cases, subst, sym,
}
use url_crawler.Robots.{Rule, longest, decide, allows_target, matches}

-- An allowing rule of the list is as long as `n`.
unfoldable pub AllowsAt : List Rule → ℕ → Type 0
AllowsAt rules n = any (λ s. s.allowance && leb n s.length) rules ≡ true

-- Each rule that disallows is met by an allowing one that is as long.
unfoldable pub Overruled : List Rule → Type 0
Overruled rules = All (λ r. r.allowance ≡ false → AllowsAt rules r.length) rules

longest-All : (rs : List Rule) (n : ℕ) → longest rs ≤ n → All (λ r. r.length ≤ n) rs
unfolding longest
longest-All [] n h = tt
longest-All (r ∷ rs) n h = (omega (arith, h), longest-All rs n (omega (arith, h)))

-- Some rule is as long as the longest.
longest-any : (r : Rule) (rs : List Rule) → any (λ s. s.length == longest (r ∷ rs)) (r ∷ rs) ≡ true
unfolding longest any
longest-any r [] = ground arith
longest-any r (s ∷ rs) = elim (Bool-cases (leb (longest (s ∷ rs)) r.length)) [
  | inl l ↦
      let q : longest (r ∷ s ∷ rs) ≡ r.length = ground (arith, l) in
      subst (λ n. any (λ t. t.length == n) (r ∷ s ∷ rs) ≡ true) (sym q) (ground arith)
  | inr l ↦
      let q : longest (r ∷ s ∷ rs) ≡ longest (s ∷ rs) = ground (arith, l) in
      subst (λ n. any (λ t. t.length == n) (r ∷ s ∷ rs) ≡ true) (sym q)
        (ground (arith, longest-any s rs))
]

top-AllowsAt :
    (rs : List Rule) (m n : ℕ)
    → any (λ s. s.length == n && s.allowance) rs ≡ true
    → m ≤ n
    → AllowsAt rs m
unfolding any AllowsAt
top-AllowsAt [] m n h l = h
top-AllowsAt (r ∷ rs) m n h l = ground (arith, top-AllowsAt rs m n)

AllowsAt-top :
    (rs : List Rule) (n : ℕ)
    → All (λ r. r.length ≤ n) rs
    → AllowsAt rs n
    → any (λ s. s.length == n && s.allowance) rs ≡ true
unfolding any AllowsAt
AllowsAt-top [] n h a = a
AllowsAt-top (r ∷ rs) n h a = ground (arith, AllowsAt-top rs n h.1)

-- Of the rules of one length one allows, or each is met.
met_at :
    (Q : ℕ → Type 0) (rs : List Rule) (n : ℕ)
    → All (λ r. r.allowance ≡ false → Q r.length) rs
    → any (λ s. s.length == n) rs ≡ true
    → (any (λ s. s.length == n && s.allowance) rs ≡ true) ⊎ Q n
unfolding any
met_at Q [] n h e = inl e
met_at Q (r ∷ rs) n h e = elim (Bool-cases (r.length == n)) [
  | inl t ↦ elim (Bool-cases r.allowance) [
    | inl a ↦ inl (ground (arith, t, a))
    | inr b ↦ let q : r.length ≡ n = ground (arith, t) in inr (subst Q q (h.0 b))
  ]
  | inr f ↦ elim (met_at Q rs n h.1 (ground (arith, e, f))) [
    | inl g ↦ inl (ground (arith, f, g))
    | inr q ↦ inr q
  ]
]

All-met :
    (all rs : List Rule) (n : ℕ)
    → any (λ s. s.length == n && s.allowance) all ≡ true
    → All (λ r. r.length ≤ n) rs
    → All (λ r. r.allowance ≡ false → AllowsAt all r.length) rs
All-met all [] n e h = tt
All-met all (r ∷ rs) n e h = ((λ _. top-AllowsAt all r.length n e h.0), All-met all rs n e h.1)

decide-Overruled : (rs : List Rule) → (decide rs ≡ true) ↔ Overruled rs
unfolding decide Overruled
decide-Overruled [] = ((λ e. tt), (λ o. refl))
decide-Overruled (r ∷ rs) =
    let n = longest (r ∷ rs) in
    let within = longest-All (r ∷ rs) n (omega arith) in
    (
      (λ e. All-met (r ∷ rs) (r ∷ rs) n e within),
      (λ o. elim (met_at (AllowsAt (r ∷ rs)) (r ∷ rs) n o (longest-any r rs)) [
        | inl g ↦ g
        | inr a ↦ AllowsAt-top (r ∷ rs) n within a
      ]),
    )

-- A target is allowed exactly when each rule that matches it and disallows it is met by a matching
-- rule that allows it and is at least as long: the longest match decides, Allow breaks a tie, and a
-- target that no rule matches is allowed.
pub allows_target_iff :
    (rules : List Rule) (target : Text)
    → (allows_target rules target ≡ true) ↔ Overruled (select (λ r. matches r.pattern target) rules)
unfolding allows_target
allows_target_iff rules target = decide-Overruled (select (λ r. matches r.pattern target) rules)
