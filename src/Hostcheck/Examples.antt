-- ===== src/Hostcheck/Examples.antt =====
-- Seeds that src/url_crawler_service/hostcheck.py refuses, and one that it lets through.
use url_crawler.Base.{
  [], ◌∷◌, Option, none, some, Bool, true, false, ◌≡◌, ◌↔◌, refl, Text, codes, text_eq,
  if◌then◌else◌, is_space, lower, ok,
}
use url_crawler.Urls.Parse.{Unicode}
use url_crawler.Hostcheck.{Address, Net, Resolved, addresses, os_error, private_host_reason}
use url_crawler.Hostcheck.Public.{NamesPublic, private_host_reason-NamesPublic}

abbrev ascii : Unicode
ascii = record { lower = lower; isspace = is_space; netloc_ok = λ netloc. true }

abbrev address : Bool → Address
address loopback = record {
  is_loopback = loopback;
  is_private = loopback;
  is_link_local = false;
  is_multicast = false;
  is_reserved = false;
  is_unspecified = false;
  is_global = if loopback then false else true;
}

abbrev parse : Text → Option Address
unfolding text_eq
parse host =
    if text_eq host (codes "127.0.0.1")
    then some (address true)
    else if text_eq host (codes "9.9.9.9")
    then some (address false)
    else none

-- One name, with a public address.
abbrev resolve : Text → Resolved
unfolding text_eq
resolve host =
    if text_eq host (codes "ex.org")
    then addresses (codes "9.9.9.9" ∷ [])
    else if text_eq host (codes "rebind.org")
    then addresses (codes "9.9.9.9" ∷ codes "127.0.0.1" ∷ [])
    else os_error

abbrev net : Net
net = record { unicode = ascii; parse = parse; resolve = resolve }

named : private_host_reason net (codes "http://ex.org./a") ≡ ok none
unfolding private_host_reason text_eq
named = refl

local :
    private_host_reason net (codes "http://db.Internal/")
    ≡ ok (some (codes "db.internal is a local hostname"))
unfolding private_host_reason text_eq
local = refl

mixed :
    private_host_reason net (codes "http://rebind.org/")
    ≡ ok (some (codes "host resolves to a private address (127.0.0.1)"))
unfolding private_host_reason text_eq
mixed = refl

private_host_reason-NamesPublic_example :
    (private_host_reason net (codes "http://ex.org./a") ≡ ok none)
    ↔ NamesPublic net (codes "http://ex.org./a")
private_host_reason-NamesPublic_example =
    private_host_reason-NamesPublic net (codes "http://ex.org./a")
