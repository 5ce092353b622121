-- ===== src/Robots.antt =====
-- src/url_crawler/robots.py: the parsing of robots.txt, the choice of the group and the match of a
-- rule. `unquote` and `urlsplit` are those of `urllib.parse`, `float` the built-in; texts are ASCII.
mod Decisions
mod Groups
mod Loading
mod Vetting
mod Examples
use url_crawler.Base.{
  ℕ, ◌+◌, List, [], ◌∷◌, ◌++◌, Option, none, some, Bool, true, false, not, ◌&&◌, ◌||◌, Text, codes,
  text_eq, ltb, leb, ◌==◌, if◌then◌else◌, lower, strip, before, length, select, any, max, rstrip,
  lstrip, after_sep, starts_with,
}

-- A compiled pattern is the text that it was made of.
pub record Rule : Type 0 where
  pub pattern : Text
  pub length : ℕ
  pub allowance : Bool

pub record Group : Type 0 where
  pub agents : List Text
  pub rules : List Rule
  pub crawl_delay : Option ℕ

abbrev pub new_group : Group
new_group = record { agents = []; rules = []; crawl_delay = none }

-- The functions of `urllib.parse` on texts, and `float(value)` in milliseconds where it is positive.
pub record Python : Type 0 where
  pub unquote : Text → Text
  pub path_of : Text → Text
  pub query_of : Text → Text
  pub delay : Text → Option ℕ

-- `.*` and then `p`: `.` passes over every character but a newline.
unfoldable pub any_run : (Text → Bool) → Text → Bool
any_run p [] = p []
any_run p (t ∷ ts) = p (t ∷ ts) || not (t == b'\n') && any_run p ts

abbrev pub heads : ℕ → (Text → Bool) → Text → Bool
heads c p [] = false
heads c p (t ∷ ts) = c == t && p ts

-- The literal parts joined by `.*`, and what has to hold where they end.
unfoldable pub glob : (Text → Bool) → Text → Text → Bool
unfolding any_run
glob end [] = end
glob end (c ∷ p) = let rest = glob end p in if c == b'*' then any_run rest else heads c rest

-- `$`: the end, or the newline before it.
abbrev pub at_end : Text → Bool
at_end [] = true
at_end (t ∷ []) = t == b'\n'
at_end (t ∷ u ∷ ts) = false

-- The path without a last `$`, and whether it had one.
unfoldable pub anchor_of : Text → Text × Bool
anchor_of [] = ([], false)
anchor_of (c ∷ []) = if c == b'$' then ([], true) else (c ∷ [], false)
anchor_of (c ∷ d ∷ p) = let (literal, anchored) = anchor_of (d ∷ p) in (c ∷ literal, anchored)

-- `_rule_pattern(path).match(target)`.
unfoldable pub matches : Text → Text → Bool
unfolding glob anchor_of
matches path target =
    let (literal, anchored) = anchor_of path in
    glob (λ rest. not anchored || at_end rest) literal target

-- `line.split("#", 1)[0].partition(":")`.
unfoldable pub parse_line : Text → Option (Text × Text)
unfolding before after_sep rstrip lstrip
parse_line line =
    let text = before b'#' line in
    elim (after_sep b':' text) [
      | none ↦ none
      | some value ↦ some (lower (strip (before b':' text)), strip value)
    ]

-- A change of `groups[-1]`.
unfoldable pub on_last : (Group → Group) → List Group → List Group
on_last f [] = []
on_last f (g ∷ []) = f g ∷ []
on_last f (g ∷ h ∷ gs) = g ∷ on_last f (h ∷ gs)

module _ (python : Python) where
  unfoldable pub rule : Text → Text → Rule
  rule name path =
      let unquoted = python.unquote path in
      record {
        pattern = unquoted;
        length = length unquoted;
        allowance = text_eq name (codes "allow") || text_eq unquoted [];
      }

  abbrev pub with_delay : Option ℕ → Group → Group
  with_delay none g = g
  with_delay (some delay) g = record g { crawl_delay = some delay }

  -- A line that names no agent, in the group that is open.
  unfoldable pub add_line : Text → Text → List Group → List Group
  unfolding rule on_last text_eq
  add_line name value groups =
      if text_eq name (codes "allow") || text_eq name (codes "disallow")
      then on_last (λ g. record g { rules = g.rules ++ rule name value ∷ [] }) groups
      else if text_eq name (codes "crawl-delay")
      then on_last (with_delay (python.delay value)) groups
      else groups

  abbrev pub add_agent : Text → Bool → List Group → List Group
  add_agent value naming_agents groups =
      on_last (λ g. record g { agents = g.agents ++ lower value ∷ [] })
        (if naming_agents then groups else groups ++ new_group ∷ [])

  -- One round of the loop: `naming_agents` and the groups.
  unfoldable pub add_parsed : Option (Text × Text) → Bool × List Group → Bool × List Group
  unfolding add_line text_eq
  add_parsed none (naming_agents, groups) = (naming_agents, groups)
  add_parsed (some (name, value)) (naming_agents, groups) =
      if text_eq name (codes "user-agent")
      then (true, add_agent value naming_agents groups)
      else (false, add_line name value groups)

  unfoldable pub parse_lines : List Text → Bool × List Group → Bool × List Group
  unfolding add_parsed parse_line
  parse_lines [] state = state
  parse_lines (line ∷ lines) state = parse_lines lines (add_parsed (parse_line line) state)

  unfoldable pub parse_groups : List Text → List Group
  unfolding parse_lines
  parse_groups lines = (parse_lines lines (false, [])).1

  -- `_target_path`.
  unfoldable pub target_path : Text → Text
  target_path url =
      let path = python.unquote (python.path_of url) in
      let query = python.query_of url in
      let rooted = if text_eq path [] then b'/' ∷ [] else path in
      if text_eq query [] then rooted else rooted ++ b'?' ∷ python.unquote query

-- `best` with `best_length`, and `wildcard`.
pub record Choice : Type 0 where
  pub best : Option Group
  pub best_length : ℕ
  pub wildcard : Option Group

abbrev pub first_of : Option Group → Group → Option Group
first_of none g = some g
first_of (some h) g = some h

unfoldable pub consider : Text → Group → Text → Choice → Choice
unfolding starts_with text_eq
consider token group agent c =
    if text_eq agent (codes "*")
    then record c { wildcard = first_of c.wildcard group }
    else if not (text_eq agent []) && starts_with agent token && ltb c.best_length (length agent)
    then record c { best = some group; best_length = length agent }
    else c

unfoldable pub consider_agents : Text → Group → List Text → Choice → Choice
unfolding consider
consider_agents token group [] c = c
consider_agents token group (agent ∷ agents) c =
    consider_agents token group agents (consider token group agent c)

unfoldable pub consider_groups : Text → List Group → Choice → Choice
unfolding consider_agents
consider_groups token [] c = c
consider_groups token (g ∷ gs) c = consider_groups token gs (consider_agents token g g.agents c)

abbrev pub or_wildcard : Choice → Option Group
or_wildcard c = elim c.best [ none ↦ c.wildcard | some g ↦ some g ]

unfoldable pub select_group : List Group → Text → Option Group
unfolding consider_groups before rstrip lstrip
select_group groups user_agent =
    let token = lower (strip (before b'/' user_agent)) in
    or_wildcard
      (consider_groups token groups record { best = none; best_length = 0; wildcard = none })

abbrev rules_of : Option Group → List Rule
rules_of none = []
rules_of (some g) = g.rules

unfoldable pub longest : List Rule → ℕ
longest [] = 0
longest (r ∷ rs) = max r.length (longest rs)

-- The decision on the rules that match.
unfoldable pub decide : List Rule → Bool
unfolding longest any
decide [] = true
decide (r ∷ rs) = let top = longest (r ∷ rs) in any (λ s. s.length == top && s.allowance) (r ∷ rs)

unfoldable pub allows_target : List Rule → Text → Bool
unfolding decide select matches
allows_target rules target = decide (select (λ r. matches r.pattern target) rules)

-- `RobotsTxt(body, user_agent).allows(url)` for the lines of the body.
unfoldable pub allows : Python → List Text → Text → Text → Bool
unfolding allows_target select_group parse_groups target_path
allows python lines user_agent url =
    allows_target (rules_of (select_group (parse_groups python lines) user_agent))
      (target_path python url)
