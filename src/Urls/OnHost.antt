-- ===== src/Urls/OnHost.antt =====
-- A crawl (src/url_crawler/crawler.py) with the rules of src/url_crawler/urls.py.
use url_crawler.Base.{
  List, ◌++◌, ◌+◌, ◌≤◌, length, Option, none, some, true, ◌&&◌, ◌≡◌, refl, sym, ap, arith, Text,
  Option-cases, Result-cases, inl, inr, ok, text_eq, text_eq_iff, All, All-imp, both, subst, ◌∙◌,
}
use url_crawler.Crawler.Deps.{Deps, HostScope}
use url_crawler.Crawler.State.{Crawl}
use url_crawler.Crawler.Workers.{Pool, Move}
use url_crawler.Crawler.Seed.{run}
use url_crawler.Crawler.Growth.{Admitted}
use url_crawler.Crawler.OnSite.{run-FetchesOnSite}
use url_crawler.Urls.Parse.{Unicode}
use url_crawler.Urls.{normalize, from_url, same_port, in_scope, allows, rules}
use url_crawler.Urls.Shape.{IsRequest, normalize-IsRequest}

module _ (u : Unicode) where
  -- A URL with a request form on the scope's host and port.
  abbrev pub OnHost : HostScope → Text → Type 0
  OnHost scope url =
      (n : Text) × (normalize u url ≡ some n) × IsRequest u n × (from_url u n ≡ ok scope)

  same_port_lem : (a b : Option _) → same_port u a b ≡ true → a ≡ b
  same_port_lem none none h = refl
  same_port_lem (some m) (some n) h = ap some (ground (arith, h))
  same_port_lem none (some n) h = cc
  same_port_lem (some m) none h = cc

  same_scope :
      (s scope : HostScope)
      → (text_eq s.host scope.host && same_port u s.port scope.port) ≡ true
      → s ≡ scope
  same_scope s scope h =
      let hosts = both (text_eq s.host scope.host) (same_port u s.port scope.port) h in
      let host = (text_eq_iff s.host scope.host).0 hosts.0 in
      let port = same_port_lem s.port scope.port hosts.1 in
      λ i. record { host = host i; port = port i }

  in_scope_sound :
      (scope : HostScope) (n : Text) → in_scope u scope (some n) ≡ ok true → from_url u n ≡ ok scope
  in_scope_sound scope n h = elim (Result-cases (from_url u n)) [
    | inl (s, e) ↦ e ∙ ap ok (same_scope s scope (ground (arith, h, e)))
    | inr (x, e) ↦ ground (arith, h, e)
  ]

  -- What a scope allows has a request form, and that is on the scope's host and port.
  pub allows-OnHost :
      (scope : HostScope) (url : Text) → allows u scope url ≡ ok true → OnHost scope url
  unfolding allows
  allows-OnHost scope url h = elim (Option-cases (normalize u url)) [
    | inl e ↦ ground (arith, h, e)
    | inr (n, e) ↦ (
      n,
      e,
      normalize-IsRequest u url n e,
      in_scope_sound scope n (ap (in_scope u scope) (sym e) ∙ h),
    )
  ]

  abbrev pub Landed : Crawl → Text → Type 0
  Landed c url = (scope : HostScope) × (c.scope ≡ some scope) × OnHost scope url

  -- The fetches after the chain are of addresses on the host and port of the crawl's scope.
  abbrev pub FetchesOnHost : Deps → Crawl → Type 0
  FetchesOnHost d c =
      (news chain : List Text) × (c.fetches ≡ news ++ chain)
      × (length chain ≤ d.config.max_seed_redirects + 1)
      × All (Landed c) news

  -- In every run with the rules of urls.py, under every schedule, each fetch after the seed's chain is
  -- of a URL with a request form, on the host and port of the final scope; the chain is
  -- `max_seed_redirects + 1` fetches at most.
  pub run-FetchesOnHost :
      (d : Deps) (seed : Text) (moves : List Move) (p : Pool)
      → d.urls ≡ rules u
      → run d seed moves ≡ ok p
      → FetchesOnHost d p.crawl
  run-FetchesOnHost d seed moves p r e =
      let (news, chain, split, short, admitted) = run-FetchesOnSite d seed moves p e in
      let grounds : (url : Text)
          → Admitted d p.crawl.scope p.crawl.robots url
          → Landed p.crawl url =
        λ url (scope, here, allowed, granted). (
          scope,
          here,
          allows-OnHost scope url (subst (λ x. x.scope_allows scope url ≡ ok true) r allowed),
        ) in
      (news, chain, split, short, All-imp grounds news admitted)
