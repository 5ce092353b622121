-- ===== src/Cli/Options.antt =====
-- src/url_crawler/cli.py: `build_parser`, as the effect of each option on the namespace, in the order of
-- the command line. How argparse cuts a command line into options is not modelled.
use url_crawler.Base.{
  ◌+◌, List, [], ◌∷◌, Option, none, some, Bool, true, false, Text, codes, text_eq, ok,
  if◌then◌else◌, ◌≡◌, refl, ap, subst, All, Bool-cases, inl, inr, ◌||◌,
}
use url_crawler.Config.Floats.{ℤ, pos, Float, seconds, int_lt, float_le, float_lt}
use url_crawler.Config.{post_init}
use url_crawler.Urls.{prepare_seed}
use url_crawler.Cli.{Args, config_of, checked_args}
use url_crawler.Cli.Output.{Display}

pub record Namespace : Type 0 where
  pub args : Args
  pub display : Display
  pub format : Text

-- The defaults, most of them `DEFAULTS = CrawlConfig()`.
abbrev pub default_namespace : Text → Namespace
default_namespace url = record {
  args = record {
    url = url;
    concurrency = pos 10;
    timeout = seconds 10;
    max_pages = none;
    max_bytes = pos 5000000;
    request_budget = seconds 60;
    ignore_robots = false;
  };
  display = record { quiet = false; verbose = 0 };
  format = codes "text";
}

-- One option of the command line with its text.
pub data Given : Type 0 where
  concurrency_is timeout_is max_pages_is max_bytes_is request_budget_is format_is : Text → Given
  ignores_robots is_quiet is_verbose : Given

module _ (int : Text → Option ℤ) (float : Text → Option Float) where
  abbrev with_args : (Args → Args) → Namespace → Namespace
  with_args f n = record n { args = f n.args }

  abbrev typed {ℓ} : {A : Type ℓ} → Option A → (A → Namespace) → Option Namespace
  typed none f = none
  typed (some a) f = some (f a)

  -- `none` is `parser.error`: the text is not of the option's type or none of its choices.
  unfoldable pub add_given : Given → Namespace → Option Namespace
  unfolding text_eq
  add_given (concurrency_is raw) n =
      typed (int raw) (λ x. with_args (λ a. record a { concurrency = x }) n)
  add_given (timeout_is raw) n =
      typed (float raw) (λ x. with_args (λ a. record a { timeout = x }) n)
  add_given (max_pages_is raw) n =
      typed (int raw) (λ x. with_args (λ a. record a { max_pages = some x }) n)
  add_given (max_bytes_is raw) n =
      typed (int raw) (λ x. with_args (λ a. record a { max_bytes = x }) n)
  add_given (request_budget_is raw) n =
      typed (float raw) (λ x. with_args (λ a. record a { request_budget = x }) n)
  add_given (format_is raw) n =
      if text_eq raw (codes "text") || text_eq raw (codes "jsonl")
      then some (record n { format = raw })
      else none
  add_given ignores_robots n = some (with_args (λ a. record a { ignore_robots = true }) n)
  add_given is_quiet n = some (record n { display = record n.display { quiet = true } })
  add_given is_verbose n =
      some (record n { display = record n.display { verbose = n.display.verbose + 1 } })

  abbrev go_on : Option Namespace → (Namespace → Option Namespace) → Option Namespace
  go_on none f = none
  go_on (some n) f = f n

  unfoldable pub parse_from : List Given → Namespace → Option Namespace
  unfolding add_given
  parse_from [] n = some n
  parse_from (g ∷ gs) n = go_on (add_given g n) (parse_from gs)

  abbrev pub parse_args : Text → List Given → Option Namespace
  parse_args url gs = parse_from gs (default_namespace url)

  -- An option that does not bear on the limits of the crawl.
  abbrev pub Harmless : Given → Type 0
  Harmless (format_is raw) = Unit {0}
  Harmless ignores_robots = Unit {0}
  Harmless is_quiet = Unit {0}
  Harmless is_verbose = Unit {0}
  Harmless g = ⊥

  -- The limits of the namespace are the defaults.
  abbrev Limits : Text → Args → Type 0
  Limits url a = (b : Bool) × (a ≡ record (default_namespace url).args { ignore_robots = b })

  abbrev Kept : Text → Option Namespace → Type 0
  Kept url none = Unit {0}
  Kept url (some n) = Limits url n.args

  given-Kept :
      (url : Text) (g : Given) (n : Namespace)
      → Harmless g
      → Limits url n.args
      → Kept url (add_given g n)
  unfolding add_given
  given-Kept url (format_is raw) n h l =
      elim (Bool-cases (text_eq raw (codes "text") || text_eq raw (codes "jsonl"))) [
        | inl e ↦ rw (add_given, e) l
        | inr e ↦ rw (add_given, e) tt
      ]
  given-Kept url ignores_robots n h (b, e) =
      (true, ap {A = Args} (λ a. record a { ignore_robots = true }) e)
  given-Kept url is_quiet n h l = l
  given-Kept url is_verbose n h l = l
  given-Kept url (concurrency_is raw) n h l = elim h [ ]
  given-Kept url (timeout_is raw) n h l = elim h [ ]
  given-Kept url (max_pages_is raw) n h l = elim h [ ]
  given-Kept url (max_bytes_is raw) n h l = elim h [ ]
  given-Kept url (request_budget_is raw) n h l = elim h [ ]

  parse_from-Kept :
      (url : Text) (gs : List Given) (n : Namespace)
      → All Harmless gs
      → Limits url n.args
      → Kept url (parse_from gs n)
  unfolding parse_from
  parse_from-Kept url [] n h l = l
  parse_from-Kept url (g ∷ gs) n (h, hs) l =
      goes_on (add_given g n) (given-Kept url g n h l) (λ m k. parse_from-Kept url gs m hs k)
    where
      goes_on :
          (o : Option Namespace)
          → Kept url o
          → ((m : Namespace) → Limits url m.args → Kept url (parse_from gs m))
          → Kept url (go_on o (parse_from gs))
      goes_on none k f = tt
      goes_on (some m) k f = f m k

  default_accepted :
      (url : Text) (b : Bool)
      → let a = record (default_namespace url).args { ignore_robots = b } in
        post_init (config_of a) ≡ ok (config_of a)
  unfolding post_init int_lt float_le float_lt
  default_accepted url b = refl

  -- With options for the output and for robots.txt only, in any number and order, every URL that
  -- `prepare_seed` accepts is crawled: no default is refused by the checks of the configuration.
  pub checked_args-parse_args :
      (url seed : Text) (gs : List Given) (n : Namespace)
      → All Harmless gs
      → parse_args url gs ≡ some n
      → prepare_seed url ≡ ok seed
      → checked_args n.args ≡ ok (seed, config_of n.args)
  unfolding checked_args
  checked_args-parse_args url seed gs n h e p =
      let (b, q) : Limits url n.args =
        subst (Kept url) e (parse_from-Kept url gs (default_namespace url) h (false, refl)) in
      rw (q, checked_args, p, default_accepted url b) refl
