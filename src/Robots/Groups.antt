-- ===== src/Robots/Groups.antt =====
-- Which group src/url_crawler/robots.py takes: the one that RFC 9309 says.
use url_crawler.Base.{
  ℕ, ◌≤◌, ◌<◌, List, [], ◌∷◌, Option, none, some, Bool, true, false, not, ◌&&◌, Text, codes,
  text_eq, ltb, if◌then◌else◌, lower, strip, before, length, starts_with, ◌≡◌, ◌⊎◌, inl, inr, refl,
  subst, arith, All, All-imp, Bool-cases, ◌∙◌,
}
use url_crawler.Robots.{
  Group, Choice, consider, consider_agents, consider_groups, select_group, or_wildcard,
}

-- The agent is the crawler's product token or a head of it.
abbrev pub hits : Text → Text → Bool
hits token agent =
    not (text_eq agent (codes "*")) && (not (text_eq agent []) && starts_with agent token)

abbrev pub Naming : Type 0
Naming = Group × Text

-- The agents with their groups, in the order of the file.
abbrev pub namings_of : Group → List Text → List Naming → List Naming
namings_of g [] rest = rest
namings_of g (agent ∷ agents) rest = (g, agent) ∷ namings_of g agents rest

unfoldable pub namings : List Group → List Naming
namings [] = []
namings (g ∷ gs) = namings_of g g.agents (namings gs)

abbrev pub In : Naming → List Naming → Type 0
In x [] = ⊥
In x (y ∷ ys) = (y ≡ x) ⊎ In x ys

-- The first group for `*`.
unfoldable pub starred : List Naming → Option Group
starred [] = none
starred ((g, agent) ∷ rest) = if text_eq agent (codes "*") then some g else starred rest

unfoldable each : Text → List Naming → Choice → Choice
each token [] c = c
each token ((g, agent) ∷ rest) c = each token rest (consider token g agent c)

agents_each :
    (token : Text) (g : Group) (agents : List Text) (rest : List Naming) (c : Choice)
    → each token (namings_of g agents rest) c ≡ each token rest (consider_agents token g agents c)
unfolding each consider_agents
agents_each token g [] rest c = refl
agents_each token g (agent ∷ agents) rest c =
    agents_each token g agents rest (consider token g agent c)

groups_each :
    (token : Text) (gs : List Group) (c : Choice)
    → each token (namings gs) c ≡ consider_groups token gs c
unfolding each namings consider_groups
groups_each token [] c = refl
groups_each token (g ∷ gs) c =
    agents_each token g g.agents (namings gs) c
    ∙ groups_each token gs (consider_agents token g g.agents c)

hit_long : (token agent : Text) → hits token agent ≡ true → length agent ≤ 0 → ⊥
unfolding text_eq
hit_long token [] h l = cc
hit_long token (c ∷ agent) h l = omega (arith, l)

module _ (token : Text) where
  -- No agent that hits is longer.
  abbrev pub AtMost : ℕ → List Naming → Type 0
  AtMost n ps = All (λ p. hits token p.1 ≡ true → length p.1 ≤ n) ps

  abbrev Longer : List Naming → Choice → Choice → Type 0
  Longer ps c d =
      (g : Group) × (agent : Text) × (d.best ≡ some g)
      × In (g, agent) ps
      × (hits token agent ≡ true)
      × (d.best_length ≡ length agent)
      × (c.best_length < length agent)
      × AtMost (length agent) ps

  abbrev Same : List Naming → Choice → Choice → Type 0
  Same ps c d = (d.best ≡ c.best) × (d.best_length ≡ c.best_length) × AtMost c.best_length ps

  abbrev Beats : List Naming → Choice → Choice → Type 0
  Beats ps c d = Same ps c d ⊎ Longer ps c d

  AtMost-le : (m n : ℕ) (ps : List Naming) → m ≤ n → AtMost m ps → AtMost n ps
  AtMost-le m n ps l h = All-imp (λ p f e. omega (arith, f e, l)) ps h

  -- One more naming that changes nothing, or is the longest so far.
  passed :
      (g : Group) (agent : Text) (ps : List Naming) (c b d : Choice)
      → b.best ≡ c.best
      → b.best_length ≡ c.best_length
      → (hits token agent ≡ true → length agent ≤ c.best_length)
      → Beats ps b d
      → Beats ((g, agent) ∷ ps) c d
  passed g agent ps c b d s n h (inl (e, k, most)) =
      inl (e ∙ s, k ∙ n, (h, subst (λ k. AtMost k ps) n most))
  passed g agent ps c b d s n h (inr (g', a, e, m, t, k, l, most)) =
      inr (g', a, e, inr m, t, k, omega (arith, l, n), ((λ q. omega (arith, h q, l, n)), most))

  taken :
      (g : Group) (agent : Text) (ps : List Naming) (c b d : Choice)
      → b.best ≡ some g
      → b.best_length ≡ length agent
      → hits token agent ≡ true
      → c.best_length < length agent
      → Beats ps b d
      → Beats ((g, agent) ∷ ps) c d
  taken g agent ps c b d s n h l (inl (e, k, most)) = inr (
    g,
    agent,
    e ∙ s,
    inl refl,
    h,
    k ∙ n,
    l,
    ((λ q. omega arith), subst (λ k. AtMost k ps) n most),
  )
  taken g agent ps c b d s n h l (inr (g', a, e, m, t, k, l', most)) =
      inr (g', a, e, inr m, t, k, omega (arith, l, l', n), ((λ q. omega (arith, l', n)), most))

  each-Beats : (ps : List Naming) (c : Choice) → Beats ps c (each token ps c)
  unfolding each consider
  each-Beats [] c = inl (refl, refl, tt)
  each-Beats ((g, agent) ∷ ps) c =
      let b = consider token g agent c in
      let next = each-Beats ps b in
      elim (Bool-cases (hits token agent && ltb c.best_length (length agent))) [
        | inl h ↦
            taken g agent ps c b (each token ps b) (ground (arith, h)) (ground (arith, h))
              (ground (arith, h)) (ground (arith, h)) next
        | inr h ↦
            passed g agent ps c b (each token ps b) (ground (arith, h)) (ground (arith, h))
              (λ q. ground (arith, h, q)) next
      ]

  each-wildcard :
      (ps : List Naming) (c : Choice)
      → (each token ps c).wildcard ≡ elim c.wildcard [ none ↦ starred ps | some g ↦ some g ]
  unfolding each consider starred
  each-wildcard [] c = ground arith
  each-wildcard ((g, agent) ∷ ps) c = ground (arith, each-wildcard ps (consider token g agent c))

  none_hits : (ps : List Naming) → AtMost 0 ps → All (λ p. hits token p.1 ≡ false) ps
  none_hits ps h =
      All-imp
        (λ p f. elim (Bool-cases (hits token p.1)) [
          | inr q ↦ q
          | inl q ↦ absurd (hit_long token p.1 q (f q))
        ])
        ps h

  -- A group with the longest agent that hits, or the first one for `*` where none does.
  abbrev pub Selected : List Naming → Option Group → Type 0
  Selected ps o =
      ((g : Group) × (agent : Text) × (o ≡ some g)
        × In (g, agent) ps
        × (hits token agent ≡ true)
        × AtMost (length agent) ps)
      ⊎ (All (λ p. hits token p.1 ≡ false) ps × (o ≡ starred ps))

  end_Selected :
      (ps : List Naming) (d : Choice)
      → Beats ps (record { best = none; best_length = 0; wildcard = none }) d
      → d.wildcard ≡ starred ps
      → Selected ps (or_wildcard d)
  end_Selected ps d (inl (e, k, most)) w = inr (none_hits ps most, rw e w)
  end_Selected ps d (inr (g, agent, e, m, t, k, l, most)) w = inl (g, agent, rw e refl, m, t, most)

-- For every robots.txt and user agent, the group that decides has, of all the agents named in the file,
-- a longest one that is the crawler's product token or a head of it; where no agent is, it is the first
-- group for `*`, and where there is no such group either, none decides.
pub select_group-Selected :
    (groups : List Group) (user_agent : Text)
    → Selected
        (lower (strip (before b'/' user_agent)))
        (namings groups)
        (select_group groups user_agent)
unfolding select_group
select_group-Selected groups user_agent =
    let token = lower (strip (before b'/' user_agent)) in
    let start : Choice = record { best = none; best_length = 0; wildcard = none } in
    subst (λ d. Selected token (namings groups) (or_wildcard d)) (groups_each token groups start)
      (end_Selected token (namings groups) (each token (namings groups) start)
        (each-Beats token (namings groups) start) (each-wildcard token (namings groups) start))
