-- ===== src/Hostcheck/Public.antt =====
-- Which seeds src/url_crawler_service/hostcheck.py lets through.
use url_crawler.Base.{
  List, [], ◌∷◌, Option, none, some, true, false, ◌≡◌, ◌≢◌, ◌↔◌, refl, arith, subst, sym, ap, Text,
  text_eq, text_eq_iff, text_eq_refl, All, Bool-cases, Result-cases, inl, inr, ok,
}
use url_crawler.Hostcheck.{
  Address, is_closed, is_local, Net, Resolved, addresses, os_error, escaped, literal_reason,
  is_refused, address_reason, resolved_reason, named_reason, host_reason, host_of,
  private_host_reason,
}

module _ (net : Net) where
  -- A text that is an open address.
  abbrev pub IsOpen : Text → Type 0
  IsOpen address = is_refused net (net.parse address) ≡ false

  -- There is an address, and all are open.
  abbrev pub AllOpen : Resolved → Type 0
  AllOpen os_error = ⊥
  AllOpen (escaped e) = ⊥
  AllOpen (addresses []) = ⊥
  AllOpen (addresses (address ∷ rest)) = All IsOpen (address ∷ rest)

  -- An open address itself, or a name of open addresses.
  abbrev pub Leads : Text → Option Address → Type 0
  Leads host (some literal) = is_closed literal ≡ false
  Leads host none = AllOpen (net.resolve host)

  -- A host that is no local name, and leads to open addresses only.
  abbrev pub IsPublic : Text → Type 0
  IsPublic host = (host ≢ []) × (is_local host ≡ false) × Leads host (net.parse host)

  address_reason-All : (xs : List Text) → (address_reason net xs ≡ none) ↔ All IsOpen xs
  unfolding address_reason
  address_reason-All [] = ((λ e. tt), (λ h. refl))
  address_reason-All (x ∷ xs) =
      let ih = address_reason-All xs in
      elim (Bool-cases (is_refused net (net.parse x))) [
        | inl e ↦ ((λ q. ground (arith, e, q)), (λ (h, hs). ground (arith, e, h)))
        | inr e ↦ ((λ q. (e, ih.0 (ground (arith, e, q)))), (λ (h, hs). ground (arith, e, ih.1 hs)))
      ]

  literal_reason_iff :
      (host : Text) (a : Address) → (literal_reason net host a ≡ none) ↔ (is_closed a ≡ false)
  literal_reason_iff host a = elim (Bool-cases (is_closed a)) [
    | inl e ↦ ((λ q. ground (arith, e, q)), (λ h. ground (arith, e, h)))
    | inr e ↦ ((λ q. e), (λ h. rw e refl))
  ]

  resolved_reason-AllOpen : (o : Resolved) → (resolved_reason net o ≡ ok none) ↔ AllOpen o
  resolved_reason-AllOpen os_error = ((λ e. cc), (λ h. elim h [ ]))
  resolved_reason-AllOpen (escaped x) = ((λ e. cc), (λ h. elim h [ ]))
  resolved_reason-AllOpen (addresses []) = ((λ e. cc), (λ h. elim h [ ]))
  resolved_reason-AllOpen (addresses (x ∷ xs)) =
      let all = address_reason-All (x ∷ xs) in
      ((λ e. all.0 (ground (arith, e))), (λ h. ap (λ o. ok o) (all.1 h)))

  named_reason-Leads :
      (host : Text) (o : Option Address) → (named_reason net host o ≡ ok none) ↔ Leads host o
  named_reason-Leads host (some a) =
      let literal = literal_reason_iff host a in
      ((λ e. literal.0 (ground (arith, e))), (λ h. ap (λ o. ok o) (literal.1 h)))
  named_reason-Leads host none = resolved_reason-AllOpen (net.resolve host)

  host_reason-IsPublic : (host : Text) → (host_reason net host ≡ ok none) ↔ IsPublic host
  unfolding host_reason
  host_reason-IsPublic host =
      let named = named_reason-Leads host (net.parse host) in
      elim (Bool-cases (text_eq host [])) [
        | inl e ↦ (
          (λ q. ground (arith, e, q)),
          (λ (ne, away, leads). elim (ne ((text_eq_iff host []).0 e)) [ ]),
        )
        | inr e ↦ elim (Bool-cases (is_local host)) [
          | inl l ↦ ((λ q. ground (arith, e, l, q)), (λ (ne, away, leads). ground (arith, l, away)))
          | inr l ↦ (
            (λ q. (
              (λ z. ground (arith, e, subst (λ t. text_eq t [] ≡ true) (sym z) (text_eq_refl []))),
              l,
              named.0 (rw (host_reason, e, l) at q),
            )),
            (λ (ne, away, leads). rw (host_reason, e, l) (named.1 leads)),
          )
        ]
      ]

  -- The host part of the URL is public.
  abbrev pub NamesPublic : Text → Type 0
  NamesPublic url = (host : Text) × (host_of net url ≡ ok host) × IsPublic host

  -- A seed is let through exactly when its host is no local name and is, or resolves to, addresses
  -- that are all parsed and public. Else it is refused, as where the resolver gives no address or fails
  -- with `OSError`, or an exception goes on, as any other one of the resolver.
  pub private_host_reason-NamesPublic :
      (url : Text) → (private_host_reason net url ≡ ok none) ↔ NamesPublic url
  unfolding private_host_reason
  private_host_reason-NamesPublic url = elim (Result-cases (host_of net url)) [
    | inr (x, e) ↦ ((λ q. ground (arith, e, q)), (λ (host, f, public). ground (arith, e, f)))
    | inl (host, e) ↦ (
      (λ q. (host, e, (host_reason-IsPublic host).0 (ground (arith, e, q)))),
      (λ (other, f, public).
          let same : other ≡ host = ground (arith, e, f) in
          let reason = (host_reason-IsPublic host).1 (subst IsPublic same public) in
          ground (arith, e, reason)),
    )
  ]
