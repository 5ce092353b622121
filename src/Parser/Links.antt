-- ===== src/Parser/Links.antt =====
-- What the links of src/url_crawler/parser.py are.
use url_crawler.Base.{
  List, [], ◌∷◌, Option, none, some, true, false, ◌≡◌, refl, arith, Text, has, text_eq, text_eq_iff,
  text_eq_refl, ok, Bool-cases, Result-cases, inl, inr, subst, sym, ◌⊎◌, ◌↔◌, Option-cases, ap, ◌∙◌,
}
use url_crawler.Urls.Parse.{Unicode}
use url_crawler.Urls.Join.{urljoin}
use url_crawler.Urls.{strip_by, normalize, resolve_href}
use url_crawler.Parser.{Tree, fromkeys, kept_with, based_on, resolve_all, extract_links}

abbrev pub Distinct : List Text → Type 0
Distinct [] = Unit {0}
Distinct (x ∷ xs) = (has x xs ≡ false) × Distinct xs

-- What was seen does not come again, and what was not comes if it is there.
fromkeys-seen :
    (k : Text) (seen xs : List Text) → has k seen ≡ true → has k (fromkeys seen xs) ≡ false
unfolding fromkeys has
fromkeys-seen k seen [] h = refl
fromkeys-seen k seen (x ∷ xs) h = elim (Bool-cases (has x seen)) [
  | inl e ↦ rw (fromkeys, e) (fromkeys-seen k seen xs h)
  | inr e ↦
      let later = fromkeys-seen k (x ∷ seen) xs (ground (arith, h)) in
      let differ : text_eq x k ≡ false = elim (Bool-cases (text_eq x k)) [
        | inr f ↦ f
        | inl f ↦ ground (arith, e, subst (λ t. has t seen ≡ true) (sym ((text_eq_iff x k).0 f)) h)
      ] in
      rw (fromkeys, e) (ground (arith, later, differ))
]

fromkeys-Distinct : (seen xs : List Text) → Distinct (fromkeys seen xs)
unfolding fromkeys has
fromkeys-Distinct seen [] = tt
fromkeys-Distinct seen (x ∷ xs) = elim (Bool-cases (has x seen)) [
  | inl e ↦ rw (fromkeys, e) (fromkeys-Distinct seen xs)
  | inr e ↦
      rw (fromkeys, e)
        (
          fromkeys-seen x (x ∷ seen) xs (ground (arith, text_eq_refl x)),
          fromkeys-Distinct (x ∷ seen) xs,
        )
]

-- No text is left out.
fromkeys-has :
    (k : Text) (seen xs : List Text) → has k seen ≡ false → has k (fromkeys seen xs) ≡ has k xs
unfolding fromkeys has
fromkeys-has k seen [] h = refl
fromkeys-has k seen (x ∷ xs) h = elim (Bool-cases (has x seen)) [
  | inl e ↦
      let differ : text_eq x k ≡ false = elim (Bool-cases (text_eq x k)) [
        | inr f ↦ f
        | inl f ↦ ground (arith, h, subst (λ t. has t seen ≡ true) ((text_eq_iff x k).0 f) e)
      ] in
      rw (fromkeys, e) (ground (arith, differ, fromkeys-has k seen xs h))
  | inr e ↦ elim (Bool-cases (text_eq x k)) [
    | inl f ↦ rw (fromkeys, e) (ground (arith, f))
    | inr f ↦
        rw (fromkeys, e) (ground (arith, f, fromkeys-has k (x ∷ seen) xs (ground (arith, f, h))))
  ]
]

module _ (u : Unicode) where
  -- An href leads to a URL: joined to the base without its outer white space, and normalised.
  abbrev pub Leads : Text → Text → Text → Type 0
  Leads base href k =
      (url : Text) × (urljoin u base (strip_by u.isspace href) ≡ ok url)
      × (normalize u url ≡ some k)

  -- One of the hrefs that there are leads to the URL.
  abbrev pub Linked : Text → List (Option Text) → Text → Type 0
  Linked base [] k = ⊥
  Linked base (none ∷ hrefs) k = Linked base hrefs k
  Linked base (some href ∷ hrefs) k = Leads base href k ⊎ Linked base hrefs k

  -- The base of a page: its own URL, unless `<base href>` is there, is not empty and leads to another.
  abbrev pub IsBase : Text → Option Text → Text → Type 0
  IsBase base_url none base = base ≡ base_url
  IsBase base_url (some []) base = base ≡ base_url
  IsBase base_url (some (c ∷ href)) base =
      Leads base_url (c ∷ href) base
      ⊎ ((base ≡ base_url) × ((k : Text) → ¬ Leads base_url (c ∷ href) k))

  resolve_href-Leads :
      (base href k : Text) → (resolve_href u href base ≡ ok (some k)) ↔ Leads base href k
  unfolding resolve_href
  resolve_href-Leads base href k = elim (Result-cases (urljoin u base (strip_by u.isspace href))) [
    | inl (url, q) ↦ (
      (λ e. (url, q, ground (arith, q, e))),
      (λ (other, r, n).
          let same : other ≡ url = ground (arith, q, r) in
          rw (resolve_href, q) (ap (λ o. ok o) (subst (λ t. normalize u t ≡ some k) same n))),
    )
    | inr (x, q) ↦ ((λ e. ground (arith, q, e)), (λ (other, r, n). ground (arith, q, r)))
  ]

  based_on-IsBase :
      (base_url : Text) (href : Option Text) (base : Text)
      → based_on u base_url href ≡ ok base
      → IsBase base_url href base
  based_on-IsBase base_url none base e = ground (arith, e)
  based_on-IsBase base_url (some []) base e = ground (arith, e)
  based_on-IsBase base_url (some (c ∷ href)) base e =
      elim (Result-cases (resolve_href u (c ∷ href) base_url)) [
        | inr (x, q) ↦ ground (arith, e, q)
        | inl (o, q) ↦ elim (Option-cases o) [
          | inl n ↦ inr (
            ground (arith, e, q, n),
            λ k leads.
                let there = (resolve_href-Leads base_url (c ∷ href) k).1 leads in
                ground (arith, q, n, there),
          )
          | inr (t, n) ↦
              let same : t ≡ base = ground (arith, e, q, n) in
              let there : resolve_href u (c ∷ href) base_url ≡ ok (some base) =
                q ∙ ap (λ x. ok x) (n ∙ ap (λ x. some x) same) in
              inl ((resolve_href-Leads base_url (c ∷ href) base).0 there)
        ]
      ]

  linked_one :
      (base href k : Text) (o : Option Text) (rest : List Text)
      → resolve_href u href base ≡ ok o
      → (has k (kept_with rest o) ≡ true) ↔ (Leads base href k ⊎ (has k rest ≡ true))
  unfolding has
  linked_one base href k none rest q = (
    (λ h. inr h),
    (λ h. elim h [
      | inl leads ↦ let there = (resolve_href-Leads base href k).1 leads in ground (arith, q, there)
      | inr r ↦ r
    ]),
  )
  linked_one base href k (some t) rest q = (
    (λ h. elim (Bool-cases (text_eq t k)) [
      | inl e ↦
          let same : t ≡ k = (text_eq_iff t k).0 e in
          inl ((resolve_href-Leads base href k).0 (q ∙ ap (λ x. ok (some x)) same))
      | inr e ↦ inr (ground (arith, h, e))
    ]),
    (λ h. elim h [
      | inl leads ↦
          let there = (resolve_href-Leads base href k).1 leads in
          let same : t ≡ k = ground (arith, q, there) in
          let hit : text_eq t k ≡ true = (text_eq_iff t k).1 same in ground (arith, hit)
      | inr r ↦ ground (arith, r)
    ]),
  )

  resolve_all-Linked :
      (base k : Text) (hrefs : List (Option Text)) (urls : List Text)
      → resolve_all u base hrefs ≡ ok urls
      → (has k urls ≡ true) ↔ Linked base hrefs k
  unfolding resolve_all has
  resolve_all-Linked base k [] urls e =
      let q : [] ≡ urls = cc in subst (λ t. (has k t ≡ true) ↔ ⊥) q ((λ h. cc), (λ h. elim h [ ]))
  resolve_all-Linked base k (none ∷ hrefs) urls e = elim (Result-cases (resolve_all u base hrefs)) [
    | inr (x, r) ↦ ground (arith, r, e)
    | inl (rest, r) ↦
        let same : rest ≡ urls = ground (arith, r, e) in
        subst (λ t. (has k t ≡ true) ↔ Linked base hrefs k) same
          (resolve_all-Linked base k hrefs rest r)
  ]
  resolve_all-Linked base k (some href ∷ hrefs) urls e =
      elim (Result-cases (resolve_href u href base)) [
        | inr (x, q) ↦ ground (arith, q, e)
        | inl (o, q) ↦ elim (Result-cases (resolve_all u base hrefs)) [
          | inr (x, r) ↦ ground (arith, q, r, e)
          | inl (rest, r) ↦
              let same : kept_with rest o ≡ urls = ground (arith, q, r, e) in
              let one = linked_one base href k o rest q in
              let ih = resolve_all-Linked base k hrefs rest r in
              subst (λ t. (has k t ≡ true) ↔ (Leads base href k ⊎ Linked base hrefs k)) same
                (
                  (λ h. elim (one.0 h) [ inl l ↦ inl l | inr i ↦ inr (ih.0 i) ]),
                  (λ h. one.1 (elim h [ inl l ↦ inl l | inr i ↦ inr (ih.1 i) ])),
                )
        ]
      ]

  -- The links of a page with a base: each once, and one is there exactly when an href leads to it.
  abbrev pub LinksOf : Tree → Text → List Text → Type 0
  LinksOf tree base_url links =
      Distinct links
      × (base : Text) × IsBase base_url tree.base_href base
      × ((k : Text) → (has k links ≡ true) ↔ Linked base tree.hrefs k)

  -- When `extract_links` returns, its links are each there once, and a URL is among them exactly when
  -- an href of the page, joined without its outer white space to the base, is normalised to it. The base
  -- is the page's URL, unless `<base href>` is there, is not empty and leads to a URL itself.
  pub extract_links-LinksOf :
      (tree : Tree) (base_url : Text) (links : List Text)
      → extract_links u tree base_url ≡ ok links
      → LinksOf tree base_url links
  unfolding extract_links
  extract_links-LinksOf tree base_url links e =
      elim (Result-cases (based_on u base_url tree.base_href)) [
        | inr (x, b) ↦ ground (arith, b, e)
        | inl (base, b) ↦ elim (Result-cases (resolve_all u base tree.hrefs)) [
          | inr (x, r) ↦ ground (arith, b, r, e)
          | inl (urls, r) ↦
              let same : fromkeys [] urls ≡ links = ground (arith, b, r, e) in
              subst (LinksOf tree base_url) same (
                fromkeys-Distinct [] urls,
                base,
                based_on-IsBase base_url tree.base_href base b,
                λ k.
                    let linked = resolve_all-Linked base k tree.hrefs urls r in
                    let kept = fromkeys-has k [] urls refl in
                    ((λ h. linked.0 (sym kept ∙ h)), (λ h. kept ∙ linked.1 h)),
              )
        ]
      ]
