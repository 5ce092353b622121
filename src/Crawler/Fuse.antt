-- ===== src/Crawler/Fuse.antt =====
-- The failure fuse of src/url_crawler/crawler.py against the history of fetches.
use url_crawler.Base.{
  ℕ, ◌+◌, ◌≤◌, ◌<◌, List, [], ◌∷◌, Option, none, some, Bool, true, false, ◌||◌, Text, Result, ok,
  raise, arith, ◌≡◌, get_elem?, if◌then◌else◌, leb, Option-cases, inl, inr, length, Exn, set,
}
use url_crawler.Models.{FetchResult, FetchError, Fetched, fetched, failed, PageResult}
use url_crawler.Frontier.{get}
use url_crawler.Crawler.Deps.{Deps}
use url_crawler.Crawler.State.{Crawl, continue-keeps, count_ok}
use url_crawler.Crawler.Page.{
  report, page_links, deliver, enqueue, check_fuse, counts_toward_fuse, handle, begin_page,
}
use url_crawler.Crawler.Frames.{enqueue-SameButFrontier}
use url_crawler.Crawler.Workers.{
  Task, idle, waiting, sleeping, fetching, Pool, Move, gets, locks, wakes, returns, Stage, returned,
  delay, fetch, process, recover, after_fetch, finish, start, move, attempt, worker_of, step,
  run_moves,
}

-- A history of fetches has the latest first. The failures that count since the last fetched page:
unfoldable pub trailing : List Fetched → ℕ
trailing [] = 0
trailing (fetched r ∷ rs) = 0
trailing (failed e ∷ rs) = (if counts_toward_fuse e then 1 else 0) + trailing rs

-- At some point of the history these were `fuse` or more.
unfoldable pub burnt : ℕ → List Fetched → Bool
unfolding trailing
burnt fuse [] = false
burnt fuse (r ∷ rs) = leb fuse (trailing (r ∷ rs)) || burnt fuse rs

-- The fetches that return to a worker, in the order of a schedule.
abbrev pub observe_task : Move → Option Task → List Fetched → List Fetched
observe_task (returns i (ok r)) (some (fetching url)) rs = r ∷ rs
observe_task _ _ rs = rs

abbrev pub observe : Pool → Move → List Fetched → List Fetched
observe p m rs = elim p.crashed [
  | some e ↦ rs
  | none ↦ observe_task m (get_elem? p.tasks (worker_of m)) rs
]

unfoldable pub observed : Deps → Pool → List Move → List Fetched → List Fetched
observed d p [] rs = rs
observed d p (m ∷ ms) rs = observed d (step d p m) ms (observe p m rs)

-- The attributes of the fuse agree with the history.
pub record Fused (fuse : ℕ) (rs : List Fetched) (c : Crawl) : Type 0 where
  pub aborted : c.aborted ≡ burnt fuse rs
  pub counted : c.aborted ≡ false → (c.consecutive_failures ≡ trailing rs) × (trailing rs < fuse)
  pub stopped : c.aborted ≡ true → c.stopping ≡ true

module _ (d : Deps) (writes : (n : ℕ) → d.page_raises n ≡ none)
    (fuse : 1 ≤ d.config.failure_fuse) where
  abbrev pub Agrees : List Fetched → Crawl → Type 0
  Agrees = Fused d.config.failure_fuse

  check_fuse-Agrees :
      (rs : List Fetched) (e : FetchError) (c : Crawl)
      → Agrees rs c
      → Agrees (failed e ∷ rs) (check_fuse d.config.failure_fuse e c)
  unfolding check_fuse trailing burnt
  check_fuse-Agrees rs e c h = ground arith

  enqueue-Agrees :
      (rs : List Fetched) (links : List Text) (c : Crawl)
      → Agrees rs c
      → Agrees rs (enqueue d links c).1
  enqueue-Agrees rs links c h = ground (arith, enqueue-SameButFrontier d links c)

  report-Agrees :
      (rs : List Fetched) (result : PageResult) (c : Crawl)
      → Agrees rs c
      → Agrees rs (report d result c).1
  unfolding report
  report-Agrees rs result c h = ground arith

  page_links-Agrees :
      (rs : List Fetched) (url : Text) (r : FetchResult) (c : Crawl)
      → Agrees rs c
      → Agrees rs (page_links d url r c).1
  unfolding page_links
  page_links-Agrees rs url r c h = ground arith

  begin_page-Agrees :
      (rs : List Fetched) (r : FetchResult) (c : Crawl)
      → Agrees rs c
      → Agrees (fetched r ∷ rs) (begin_page r c)
  unfolding trailing burnt
  begin_page-Agrees rs r c h = ground arith

  deliver-Agrees :
      (rs : List Fetched) (url : Text) (r : FetchResult) (links : List Text) (c : Crawl)
      → Agrees rs c
      → Agrees rs (deliver d url r links c).1
  unfolding deliver
  deliver-Agrees rs url r links c h =
      continue-keeps (Agrees rs) (report d _ (count_ok c)) _
        (report-Agrees rs _ (count_ok c) (ground arith)) (λ _. enqueue-Agrees rs links)

  pub handle-Agrees :
      (rs : List Fetched) (url : Text) (r : Fetched) (c : Crawl)
      → Agrees rs c
      → Agrees (r ∷ rs) (handle d url r c).1
  unfolding handle trailing burnt
  handle-Agrees rs url (failed e) c h = ground (arith, writes (length c.reported))
  handle-Agrees rs url (fetched r) c h =
      continue-keeps (Agrees (fetched r ∷ rs)) (page_links d url r (begin_page r c)) _
        (page_links-Agrees (fetched r ∷ rs) url r (begin_page r c) (begin_page-Agrees rs r c h))
        (deliver-Agrees (fetched r ∷ rs) url r)

  recover-Agrees :
      (rs : List Fetched) (url : Text) (x : Result (Unit {0}) × Crawl)
      → Agrees rs x.1
      → Agrees rs (recover d url x).1
  unfolding recover
  recover-Agrees rs url x h = ground arith

  finish-Agrees :
      (rs : List Fetched) (p : Pool) (x : Result (Unit {0}) × Crawl)
      → Agrees rs x.1
      → Agrees rs (finish p x).crawl
  unfolding finish
  finish-Agrees rs p x h = ground arith

  process-Agrees : (rs : List Fetched) (c : Crawl) → Agrees rs c → Agrees rs (process d c).1
  unfolding process
  process-Agrees rs c h = ground arith

  start-Agrees :
      (rs : List Fetched) (i : ℕ) (p : Pool) (url : Text) (x : Stage × Crawl)
      → Agrees rs x.1
      → Agrees rs (start d i p url x).crawl
  unfolding start
  start-Agrees rs i p url (returned, c) h = finish-Agrees rs p (ok tt, c) h
  start-Agrees rs i p url (delay, c) h = ground arith
  start-Agrees rs i p url (fetch, c) h = ground arith

  gets-Agrees :
      (rs : List Fetched) (i : ℕ) (p : Pool)
      → Agrees rs p.crawl
      → Agrees rs (move d (gets i) (some idle) p).crawl
  unfolding move
  gets-Agrees rs i p h = elim (Option-cases (get p.crawl.frontier)) [
    | inl e ↦ rw (e, move) h
    | inr ((url, f), e) ↦
        rw (e, move)
          (start-Agrees rs i p url _
            (process-Agrees rs (record p.crawl { frontier = f }) (ground arith)))
  ]

  move-Agrees :
      (rs : List Fetched) (m : Move) (t : Option Task) (p : Pool)
      → Agrees rs p.crawl
      → Agrees (observe_task m t rs) (move d m t p).crawl
  unfolding move after_fetch
  move-Agrees rs (gets i) (some idle) p h = gets-Agrees rs i p h
  move-Agrees rs (locks i) (some (waiting url)) p h = ground arith
  move-Agrees rs (wakes i) (some (sleeping url)) p h = ground arith
  move-Agrees rs (returns i (ok r)) (some (fetching url)) p h =
      finish-Agrees (r ∷ rs) (record p { tasks = set p.tasks i idle }) _
        (recover-Agrees (r ∷ rs) url (handle d url r p.crawl) (handle-Agrees rs url r p.crawl h))
  move-Agrees rs (returns i (raise e)) (some (fetching url)) p h =
      finish-Agrees rs (record p { tasks = set p.tasks i idle }) _
        (recover-Agrees rs url (raise e, p.crawl) h)
  move-Agrees rs _ _ p h = h

  attempt-Agrees :
      (rs : List Fetched) (x : Option Exn) (m : Move) (p : Pool)
      → Agrees rs p.crawl
      → Agrees
          (elim x [ some e ↦ rs | none ↦ observe_task m (get_elem? p.tasks (worker_of m)) rs ])
          (attempt d x m p).crawl
  unfolding attempt
  attempt-Agrees rs none m p h = move-Agrees rs m (get_elem? p.tasks (worker_of m)) p h
  attempt-Agrees rs (some e) m p h = h

  pub run_moves-Agrees :
      (ms : List Move) (rs : List Fetched) (p : Pool)
      → Agrees rs p.crawl
      → Agrees (observed d p ms rs) (run_moves d p ms).crawl
  unfolding run_moves observed step
  run_moves-Agrees [] rs p h = h
  run_moves-Agrees (m ∷ ms) rs p h =
      run_moves-Agrees ms (observe p m rs) (step d p m) (attempt-Agrees rs p.crashed m p h)
