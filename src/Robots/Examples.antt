-- ===== src/Robots/Examples.antt =====
-- A robots.txt with a general rule and an exception (src/url_crawler/robots.py).
use url_crawler.Robots.Groups.{Selected, namings, select_group-Selected}
use url_crawler.Base.{
  ℕ, List, [], ◌∷◌, Option, none, some, true, false, ◌≡◌, ◌↔◌, refl, Text, codes, select, text_eq,
  if◌then◌else◌, is_space, lower, ok, inl, rstrip, lstrip, strip, before,
}
use url_crawler.Robots.{Rule, Python, matches, allows_target, allows, parse_groups, select_group}
use url_crawler.Fetcher.{Response, Answer, responded}
use url_crawler.Fetcher.Bodies.{ends, chunk}
use url_crawler.Robots.Loading.{Net, load_robots, robots_txt, deny_all}
use url_crawler.Robots.Vetting.{Loaded, load_robots-Loaded}
use url_crawler.Robots.Decisions.{Overruled, allows_target_iff}

abbrev plain : Python
plain = record {
  unquote = λ text. text;
  path_of = λ text. text;
  query_of = λ text. [];
  delay = λ text. none;
}

abbrev lines : List Text
lines =
    codes "User-agent: *  # everyone"
    ∷ codes "Disallow: /private*.html$"
    ∷ codes "Allow: /private/open.html"
    ∷ []

private_page : allows plain lines (codes "url-crawler/1.0") (codes "/private/a.html") ≡ false
unfolding allows
private_page = refl

open_page : allows plain lines (codes "url-crawler/1.0") (codes "/private/open.html") ≡ true
unfolding allows
open_page = refl

abbrev rules : List Rule
rules =
    record { pattern = codes "/p"; length = 2; allowance = false }
    ∷ record { pattern = codes "/p*"; length = 3; allowance = true }
    ∷ []

allows_target_iff_example :
    (allows_target rules (codes "/page") ≡ true)
    ↔ Overruled (select (λ r. matches r.pattern (codes "/page")) rules)
allows_target_iff_example = allows_target_iff rules (codes "/page")

abbrev response : ℕ → Option Text → Response
response status location = record {
  status = status;
  content_type = none;
  location = location;
  retry_after = none;
  content_encoding = none;
  content_length = none;
  stream = chunk (codes "Disallow: /") ends;
}

-- A file that has moved to another host; a guard may refuse that host.
abbrev client : Text → Answer
unfolding text_eq
client url =
    if text_eq url (codes "http://a.org/robots.txt")
    then responded (response 301 (some (codes "//b.org/robots.txt")))
    else responded (response 200 none)

abbrev open_net : Net Unit
open_net = record {
  unicode = record { lower = lower; isspace = is_space; netloc_ok = λ netloc. true };
  zlib = record { decompressobj = λ wbits. tt; decompress = λ s piece n. inl (codes "Error -3") };
  decode = λ body. some body;
  other_http = false;
  client = client;
  guard = λ url. none;
}

abbrev guarded : Net Unit
unfolding text_eq
guarded = record open_net {
  guard =
      λ url. if text_eq url (codes "http://b.org/robots.txt") then some (codes "private") else none;
}

moved : load_robots open_net (codes "http://a.org/x") ≡ (
  codes "http://a.org/robots.txt" ∷ codes "http://b.org/robots.txt" ∷ [],
  ok (robots_txt (codes "Disallow: /")),
)
unfolding load_robots text_eq rstrip lstrip
moved = refl

blocked :
    load_robots guarded (codes "http://a.org/x")
    ≡ (codes "http://a.org/robots.txt" ∷ [], ok deny_all)
unfolding load_robots text_eq
blocked = refl

load_robots-Loaded_example : Loaded guarded (load_robots guarded (codes "http://a.org/x"))
load_robots-Loaded_example = load_robots-Loaded guarded (codes "http://a.org/x")

select_group-Selected_example :
    Selected
      (lower (strip (before b'/' (codes "url-crawler/1.0"))))
      (namings (parse_groups plain lines))
      (select_group (parse_groups plain lines) (codes "url-crawler/1.0"))
select_group-Selected_example =
    select_group-Selected (parse_groups plain lines) (codes "url-crawler/1.0")
