-- ===== src/Urls/Shape.antt =====
-- What `normalize` of src/url_crawler/urls.py returns.
use url_crawler.Base.{
  ℕ, ◌≤◌, [], ◌∷◌, Option, some, true, false, ◌≡◌, ◌≢◌, refl, sym, subst, arith, Text, any, length,
  lower, leb, Bool-cases, both, inl, inr, Result, ok, raise, text_eq,
}
use url_crawler.Urls.Parse.{Unicode, SplitResult, urlunsplit, hostname}
use url_crawler.Urls.Join.{or_slash}
use url_crawler.Urls.{
  max_url_length, is_allowed, has_control, authority, remove_dot_segments, strip_by, request_form,
  if_short, is_host, crawlable, parts_and_port, normal_form, normalize,
}
use url_crawler.Urls.Segments.{Cleaned, remove_dot_segments-Cleaned}

module _ (u : Unicode) where
  -- An address by http or https: the host part is one host name in lower case, not empty and without
  -- white space, and a port if that is not the scheme's own; the path has no dot segments; there is no
  -- fragment; and it is not too long.
  pub record IsRequest (url : Text) : Type 0 where
    pub parts : SplitResult
    pub written : url ≡ urlunsplit parts
    pub scheme : is_allowed parts.scheme ≡ true
    pub host : Text
    pub at : Option ℕ
    pub netloc : parts.netloc ≡ authority parts.scheme (u.lower host) at
    pub named : u.lower host ≢ []
    pub unspaced : any u.isspace (u.lower host) ≡ false
    pub path : Cleaned parts.path
    pub whole : parts.fragment ≡ []
    pub short : length url ≤ max_url_length

  abbrev form_parts : SplitResult → Option ℕ → SplitResult
  form_parts parts n = record {
    scheme = lower parts.scheme;
    netloc = authority (lower parts.scheme) (u.lower (hostname u parts)) n;
    path = remove_dot_segments (or_slash parts.path);
    query = parts.query;
    fragment = [];
  }

  host_named : (host : Text) → is_host u host ≡ true → (host ≢ []) × (any u.isspace host ≡ false)
  unfolding text_eq any
  host_named [] h = cc
  host_named (c ∷ host) h = ((λ e. cc), ground (arith, h))

  if_short-le : (url n : Text) → if_short u url ≡ some n → (url ≡ n) × (length n ≤ max_url_length)
  if_short-le url n e = elim (Bool-cases (leb (length url) max_url_length)) [
    | inl l ↦
        let q : url ≡ n = ground (arith, e, l) in
        (q, subst (λ t. length t ≤ max_url_length) q (ground (arith, l)))
    | inr l ↦ ground (arith, e, l)
  ]

  form-IsRequest :
      (x : Result (SplitResult × Option ℕ)) (n : Text) → normal_form u x ≡ some n → IsRequest n
  unfolding request_form
  form-IsRequest (raise e) n q = cc
  form-IsRequest (ok (parts, at)) n q = elim (Bool-cases (crawlable u parts)) [
    | inr c ↦ ground (arith, q, c)
    | inl c ↦
        let short = if_short-le (request_form u parts at) n (ground (arith, q, c)) in
        let cs =
          both (is_allowed (lower parts.scheme)) (is_host u (u.lower (hostname u parts))) c in
        let named = host_named (u.lower (hostname u parts)) cs.1 in
        record {
          parts = form_parts parts at;
          written = sym short.0;
          scheme = cs.0;
          host = hostname u parts;
          at = at;
          netloc = refl;
          named = named.0;
          unspaced = named.1;
          path = remove_dot_segments-Cleaned (or_slash parts.path);
          whole = refl;
          short = short.1;
        }
  ]

  -- A URL that `normalize` returns is an address by http or https, of a host name that is not empty
  -- and has no white space and of no port that is the scheme's own, without dot segments or a fragment,
  -- of `max_url_length` characters at most.
  pub normalize-IsRequest : (url n : Text) → normalize u url ≡ some n → IsRequest n
  unfolding normalize
  normalize-IsRequest url n e =
      let text = strip_by u.isspace url in
      elim (Bool-cases (has_control text)) [
        | inl c ↦ ground (arith, e, c)
        | inr c ↦ form-IsRequest (parts_and_port u text) n (ground (arith, e, c))
      ]
