-- ===== src/Urls/Form.antt =====
-- `normalize` of src/url_crawler/urls.py against the split of the URL.
use url_crawler.Base.{
  ℕ, ◌≤◌, [], ◌∷◌, ◌++◌, Option, true, false, ◌≡◌, ◌≢◌, Text, any, length, lower, has_char, ok,
}
use url_crawler.Urls.Parse.{Unicode, SplitResult, urlsplit, hostname, port, rooted, led_by}
use url_crawler.Urls.Join.{or_slash}
use url_crawler.Urls.Segments.{Cleaned}
use url_crawler.Urls.{
  max_url_length, is_allowed, has_control, authority, remove_dot_segments, strip_by,
}

-- A text without the character.
abbrev Lacks : ℕ → Text → Type 0
Lacks c s = has_char c s ≡ false

module _ (u : Unicode) where
  -- `str.lower` makes no `@`.
  abbrev pub KeepsAt : Type 0
  KeepsAt = (s : Text) → has_char b'@' s ≡ false → has_char b'@' (u.lower s) ≡ false

  -- The text is the request form of the URL: by the scheme that the URL names, which is http or https,
  -- on the host and port that it names, which is one host without its user and without white space, of
  -- its path without dot segments and of its query; without its fragment.
  pub record FormOf (url n : Text) : Type 0 where
    pub parts : SplitResult
    pub at : Option ℕ
    pub printable : has_control (strip_by u.isspace url) ≡ false
    pub parsed : urlsplit u (strip_by u.isspace url) ≡ ok parts
    pub ported : port u parts ≡ ok at
    pub scheme : is_allowed (lower parts.scheme) ≡ true
    pub named : u.lower (hostname u parts) ≢ []
    pub unspaced : any u.isspace (u.lower (hostname u parts)) ≡ false
    pub userless : has_char b'@' (u.lower (hostname u parts)) ≡ false
    pub direct : Cleaned (remove_dot_segments (or_slash parts.path))
    pub written :
        n
        ≡ lower parts.scheme
          ++ b':' ∷ b'/' ∷ b'/' ∷ authority (lower parts.scheme) (u.lower (hostname u parts)) at
          ++ rooted (remove_dot_segments (or_slash parts.path))
          ++ led_by b'?' parts.query
    pub short : length n ≤ max_url_length

  abbrev form : SplitResult → Option ℕ → Text
  form parts at =
      lower parts.scheme
      ++ b':' ∷ b'/' ∷ b'/' ∷ authority (lower parts.scheme) (u.lower (hostname u parts)) at
      ++ rooted (remove_dot_segments (or_slash parts.path))
      ++ led_by b'?' parts.query
