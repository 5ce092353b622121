-- ===== src/Frontier.antt =====
-- src/url_crawler/frontier.py: the queue of URLs to crawl, and the keys of those seen. The
-- `asyncio.Queue` is its items, oldest first, with its count of unfinished tasks.
use url_crawler.Base.{
  ℕ, ◌+◌, ◌-◌, List, [], ◌∷◌, ◌++◌, Option, none, some, Bool, true, false, Text, codes, has, length,
  Result, ok, raise, value_error, ◌>>=◌, ◌==◌, if◌then◌else◌,
}

pub record Frontier : Type 0 where
  pub queue : List Text
  pub unfinished : ℕ
  pub seen : List Text
  pub duplicates_dropped : ℕ

abbrev pub empty : Frontier
empty = record { queue = []; unfinished = 0; seen = []; duplicates_dropped = 0 }

-- What `add` does once the key is known.
unfoldable pub add_key : Text → Text → Frontier → Bool × Frontier
add_key key url f =
    if has key f.seen
    then (false, record f { duplicates_dropped = f.duplicates_dropped + 1 })
    else (
      true,
      record f { seen = key ∷ f.seen; queue = f.queue ++ url ∷ []; unfinished = f.unfinished + 1 },
    )

unfoldable pub mark_key : Text → Frontier → Bool × Frontier
mark_key key f = if has key f.seen then (false, f) else (true, record f { seen = key ∷ f.seen })

-- `canonical_key` raises where the URL does not parse.
module _ (canonical_key : Text → Result Text) where
  unfoldable pub add : Text → Frontier → Result (Bool × Frontier)
  unfolding add_key
  add url f = do key ← canonical_key url; ok (add_key key url f)

  unfoldable pub mark_seen : Text → Frontier → Result (Bool × Frontier)
  unfolding mark_key
  mark_seen url f = do key ← canonical_key url; ok (mark_key key f)

-- `get` on a queue that holds an item; `none` where it would wait.
unfoldable pub get : Frontier → Option (Text × Frontier)
get f = elim f.queue [ [] ↦ none | url ∷ rest ↦ some (url, record f { queue = rest }) ]

-- `Queue.task_done` raises when it is called more often than items were put.
unfoldable pub task_done : Frontier → Result Frontier
task_done f =
    if f.unfinished == 0
    then raise (value_error (codes "task_done() called too many times"))
    else ok (record f { unfinished = f.unfinished - 1 })

-- `join` returns when this holds.
abbrev pub joined : Frontier → Bool
joined f = f.unfinished == 0

abbrev pub pending : Frontier → ℕ
pending f = length f.queue
