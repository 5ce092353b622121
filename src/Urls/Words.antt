-- ===== src/Urls/Words.antt =====
-- Splitting a text at a separator and joining it again (`str.split` and `str.join`, as
-- src/url_crawler/urls.py uses them).
use url_crawler.Base.{
  ℕ, List, [], ◌∷◌, ◌++◌, true, false, ◌≡◌, refl, ap, arith, Text, ◌==◌, All, push, split_on, join,
  has_char, Bool-cases, inl, inr, ◌∙◌,
}

-- No separator in a word.
abbrev pub Lacks : ℕ → Text → Type 0
Lacks sep w = has_char sep w ≡ false

pub push-All :
    (sep c : ℕ) (ws : List Text)
    → (c == sep) ≡ false
    → All (Lacks sep) ws
    → All (Lacks sep) (push c ws)
unfolding has_char
push-All sep c [] e h = (ground (arith, e), tt)
push-All sep c (w ∷ ws) e (h, hs) = (ground (arith, e, h), hs)

-- The words of a split lack the separator.
pub split_on-Lacks : (sep : ℕ) (s : Text) → All (Lacks sep) (split_on sep s)
unfolding split_on has_char
split_on-Lacks sep [] = (refl, tt)
split_on-Lacks sep (c ∷ s) = elim (Bool-cases (c == sep)) [
  | inl e ↦ rw (split_on, e) (refl, split_on-Lacks sep s)
  | inr e ↦ rw (split_on, e) (push-All sep c (split_on sep s) e (split_on-Lacks sep s))
]

-- A split has at least one word, so joining gives the text back.
join-push :
    (sep c : ℕ) (w : Text) (ws : List Text) → join sep (push c (w ∷ ws)) ≡ c ∷ join sep (w ∷ ws)
unfolding join
join-push sep c w [] = refl
join-push sep c w (v ∷ ws) = refl

abbrev IsFull : List Text → Type 0
IsFull [] = ⊥
IsFull (w ∷ ws) = Unit {0}

split_on-IsFull : (sep : ℕ) (s : Text) → IsFull (split_on sep s)
unfolding split_on
split_on-IsFull sep [] = tt
split_on-IsFull sep (c ∷ s) = elim (Bool-cases (c == sep)) [
  | inl e ↦ rw (split_on, e) tt
  | inr e ↦ rw (split_on, e) (push_IsFull c (split_on sep s))
]
  where
    push_IsFull : (c : ℕ) (ws : List Text) → IsFull (push c ws)
    push_IsFull c [] = tt
    push_IsFull c (w ∷ ws) = tt

join_step :
    (sep c : ℕ) (s : Text) (ws : List Text)
    → IsFull ws
    → join sep ws ≡ s
    → (join sep ([] ∷ ws) ≡ sep ∷ s) × (join sep (push c ws) ≡ c ∷ s)
unfolding join
join_step sep c s [] f e = elim f [ ]
join_step sep c s (w ∷ ws) f e = (ap (◌∷◌ sep) e, join-push sep c w ws ∙ ap (◌∷◌ c) e)

-- Joining the words of a split gives the text back.
pub join-split_on : (sep : ℕ) (s : Text) → join sep (split_on sep s) ≡ s
unfolding split_on join
join-split_on sep [] = refl
join-split_on sep (c ∷ s) =
    let step = join_step sep c s (split_on sep s) (split_on-IsFull sep s) (join-split_on sep s) in
    elim (Bool-cases (c == sep)) [
      | inl e ↦ let q : c ≡ sep = ground (arith, e) in rw (split_on, e, q) step.0
      | inr e ↦ rw (split_on, e) step.1
    ]

pub split_on_word : (sep : ℕ) (w : Text) → Lacks sep w → split_on sep w ≡ w ∷ []
unfolding split_on has_char
split_on_word sep [] h = refl
split_on_word sep (c ∷ w) h =
    let e : (c == sep) ≡ false = ground (arith, h) in
    rw (split_on, e, split_on_word sep w (ground (arith, h))) refl

pub split_on-append :
    (sep : ℕ) (w s : Text) → Lacks sep w → split_on sep (w ++ sep ∷ s) ≡ w ∷ split_on sep s
unfolding split_on has_char
split_on-append sep [] s h = let e : (sep == sep) ≡ true = ground arith in rw (split_on, e) refl
split_on-append sep (c ∷ w) s h =
    let e : (c == sep) ≡ false = ground (arith, h) in
    rw (split_on, e, split_on-append sep w s (ground (arith, h))) refl

-- Splitting what was joined gives the words back, if there is one and none has the separator.
pub split_on-join :
    (sep : ℕ) (w : Text) (ws : List Text)
    → All (Lacks sep) (w ∷ ws)
    → split_on sep (join sep (w ∷ ws)) ≡ w ∷ ws
unfolding join
split_on-join sep w [] (h, hs) = split_on_word sep w h
split_on-join sep w (v ∷ ws) (h, hs) =
    split_on-append sep w (join sep (v ∷ ws)) h ∙ ap (◌∷◌ w) (split_on-join sep v ws hs)
