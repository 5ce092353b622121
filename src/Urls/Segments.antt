-- ===== src/Urls/Segments.antt =====
-- `_remove_dot_segments` of src/url_crawler/urls.py: no dot segment is left, and doing it again
-- changes nothing.
use url_crawler.Base.{
  List, [], ◌∷◌, ◌++◌, false, ◌≡◌, refl, ap, sym, subst, ◌∙◌, arith, Text, All, All-append,
  split_on, join, Bool-cases, inl, inr, append_assoc, append-nil, text_eq, has_char,
}
use url_crawler.Urls.Join.{is_dot, is_parent, or_slash}
use url_crawler.Urls.Join
use url_crawler.Urls.{pop_unless_root, remove_from, remove_dot_segments}
use url_crawler.Urls.Words.{Lacks, split_on-Lacks, split_on-join, join-split_on}

-- A segment is neither `.` nor `..`, and has no slash.
abbrev pub IsPlain : Text → Type 0
IsPlain w = (is_dot w ≡ false) × Lacks b'/' w

pop-All : (P : Text → Type 0) (ws : List Text) → All P ws → All P (Join.pop ws)
unfolding Join.pop
pop-All P [] h = tt
pop-All P (w ∷ []) h = tt
pop-All P (w ∷ v ∷ ws) (h, hs) = (h, pop-All P (v ∷ ws) hs)

pop_unless_root-All :
    (P : Text → Type 0) (w : Text) (out : List Text) → All P out → All P (pop_unless_root w out)
pop_unless_root-All P w out h = ground (arith, pop-All P out h)

remove_from-All :
    (out ws : List Text) → All IsPlain out → All (Lacks b'/') ws → All IsPlain (remove_from out ws)
unfolding remove_from text_eq has_char
remove_from-All out [] h l = h
remove_from-All out (w ∷ []) h (l, ls) = elim (Bool-cases (is_dot w)) [
  | inl e ↦
      rw (remove_from, e)
        (All-append IsPlain (pop_unless_root w out) ([] ∷ []) (pop_unless_root-All IsPlain w out h)
          ((refl, refl), tt))
  | inr e ↦ rw (remove_from, e) (All-append IsPlain out (w ∷ []) h ((e, l), tt))
]
remove_from-All out (w ∷ v ∷ ws) h (l, ls) = elim (Bool-cases (is_dot w)) [
  | inl e ↦
      rw (remove_from, e)
        (remove_from-All (pop_unless_root w out) (v ∷ ws) (pop_unless_root-All IsPlain w out h) ls)
  | inr e ↦
      rw (remove_from, e)
        (remove_from-All (out ++ w ∷ []) (v ∷ ws) (All-append IsPlain out (w ∷ []) h ((e, l), tt))
          ls)
]

-- Plain segments are all kept.
remove_from-plain : (out ws : List Text) → All IsPlain ws → remove_from out ws ≡ out ++ ws
unfolding remove_from
remove_from-plain out [] h = rw (append-nil out)
remove_from-plain out (w ∷ []) ((e, l), hs) = rw (remove_from, e) refl
remove_from-plain out (w ∷ v ∷ ws) ((e, l), hs) =
    rw (remove_from, e)
      (remove_from-plain (out ++ w ∷ []) (v ∷ ws) hs ∙ append_assoc out (w ∷ []) (v ∷ ws))

All-Lacks : (ws : List Text) → All IsPlain ws → All (Lacks b'/') ws
All-Lacks [] h = tt
All-Lacks (w ∷ ws) ((e, l), hs) = (l, All-Lacks ws hs)

-- A text whose segments are plain is not changed, but for a root where it is empty.
abbrev pub Cleaned : Text → Type 0
Cleaned t = All IsPlain (split_on b'/' t) × (remove_dot_segments t ≡ t)

plain-Cleaned :
    (t : Text) (ws : List Text) → split_on b'/' t ≡ ws → All IsPlain ws → Cleaned (or_slash t)
unfolding remove_dot_segments has_char text_eq
plain-Cleaned [] ws e h = (((refl, refl), ((refl, refl), tt)), refl)
plain-Cleaned (c ∷ s) ws e h =
    let back : join b'/' ws ≡ c ∷ s = ap (join b'/') (sym e) ∙ join-split_on b'/' (c ∷ s) in
    let kept : remove_from [] (split_on b'/' (c ∷ s)) ≡ ws =
      ap (remove_from []) e ∙ remove_from-plain [] ws h in
    (subst (All IsPlain) (sym e) h, ap or_slash (ap (join b'/') kept ∙ back))

join-Cleaned : (ws : List Text) → All IsPlain ws → Cleaned (or_slash (join b'/' ws))
unfolding remove_dot_segments has_char text_eq join split_on remove_from
join-Cleaned [] h = (((refl, refl), ((refl, refl), tt)), refl)
join-Cleaned (w ∷ ws) h =
    plain-Cleaned (join b'/' (w ∷ ws)) (w ∷ ws) (split_on-join b'/' w ws (All-Lacks (w ∷ ws) h)) h

-- A path that `_remove_dot_segments` returns has neither `.` nor `..` as a segment, and cleaning it
-- again gives it back.
pub remove_dot_segments-Cleaned : (path : Text) → Cleaned (remove_dot_segments path)
unfolding remove_dot_segments
remove_dot_segments-Cleaned path =
    join-Cleaned (remove_from [] (split_on b'/' path))
      (remove_from-All [] (split_on b'/' path) tt (split_on-Lacks b'/' path))
