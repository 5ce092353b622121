-- ===== src/Hostcheck.antt =====
-- src/url_crawler_service/hostcheck.py. `ipaddress` gives an address its flags, and the resolver gives a
-- name its addresses, or raises `OSError` or another exception, which nothing catches.
mod Public
mod Examples
use url_crawler.Base.{
  ℕ, List, [], ◌∷◌, ◌++◌, Option, none, some, Bool, true, false, not, ◌||◌, Text, codes, text_eq,
  Exn, ◌==◌, if◌then◌else◌, Result, ok, raise, ◌>>=◌,
}
use url_crawler.Urls.Parse.{Unicode, SplitResult, urlsplit, hostname}
use url_crawler.Urls.{rstrip_by}

-- `ipaddress.IPv4Address | ipaddress.IPv6Address`.
pub record Address : Type 0 where
  pub is_loopback : Bool
  pub is_private : Bool
  pub is_link_local : Bool
  pub is_multicast : Bool
  pub is_reserved : Bool
  pub is_unspecified : Bool
  pub is_global : Bool

-- `_is_private`.
abbrev pub is_closed : Address → Bool
is_closed a =
    a.is_loopback
    || a.is_private
    || a.is_link_local
    || a.is_multicast
    || a.is_reserved
    || a.is_unspecified
    || not a.is_global

unfoldable pub ends_with : Text → Text → Bool
unfolding text_eq
ends_with suffix [] = text_eq [] suffix
ends_with suffix (c ∷ s) = text_eq (c ∷ s) suffix || ends_with suffix s

abbrev pub is_local : Text → Bool
unfolding ends_with text_eq
is_local host =
    text_eq host (codes "localhost")
    || ends_with (codes ".localhost") host
    || ends_with (codes ".local") host
    || ends_with (codes ".internal") host

-- What the resolver does: `UnicodeError`, of a label that is empty or too long, is an exception other than
-- `OSError`.
pub data Resolved : Type 0 where
  addresses : List Text → Resolved
  os_error : Resolved
  escaped : Exn → Resolved

-- `parse` is `ipaddress.ip_address`, `none` its `ValueError`; `resolve` is `getaddrinfo`.
pub record Net : Type 0 where
  pub unicode : Unicode
  pub parse : Text → Option Address
  pub resolve : Text → Resolved

module _ (net : Net) where
  abbrev pub literal_reason : Text → Address → Option Text
  literal_reason host a = if is_closed a then some (host ++ codes " is a private address") else none

  abbrev pub is_refused : Option Address → Bool
  is_refused none = true
  is_refused (some a) = is_closed a

  -- The loop over the addresses.
  unfoldable pub address_reason : List Text → Option Text
  address_reason [] = none
  address_reason (address ∷ rest) =
      let later = address_reason rest in
      if is_refused (net.parse address)
      then some (codes "host resolves to a private address (" ++ address ++ codes ")")
      else later

  abbrev pub resolved_reason : Resolved → Result (Option Text)
  resolved_reason os_error = ok (some (codes "host does not resolve"))
  resolved_reason (escaped e) = raise e
  resolved_reason (addresses []) = ok (some (codes "host does not resolve"))
  resolved_reason (addresses (address ∷ rest)) = ok (address_reason (address ∷ rest))

  abbrev pub named_reason : Text → Option Address → Result (Option Text)
  named_reason host (some literal) = ok (literal_reason host literal)
  named_reason host none = resolved_reason (net.resolve host)

  unfoldable pub host_reason : Text → Result (Option Text)
  unfolding text_eq ends_with address_reason
  host_reason host =
      if text_eq host []
      then ok (some (codes "the URL has no host"))
      else if is_local host
      then ok (some (host ++ codes " is a local hostname"))
      else named_reason host (net.parse host)

  abbrev pub host_of : Text → Result Text
  host_of url = urlsplit net.unicode url >>= λ parts.
      ok (rstrip_by (λ c. c == b'.') (hostname net.unicode parts))

  unfoldable pub private_host_reason : Text → Result (Option Text)
  unfolding host_reason urlsplit hostname rstrip_by
  private_host_reason url = host_of url >>= host_reason
