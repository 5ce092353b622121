-- ===== src/Lib.antt =====
-- A verification of url-crawler: one crawl core behind a command line and behind a job service.
--
-- A crawl starts from a seed URL. `Crawler.run` follows the seed's redirects, anchors the scope to the
-- host where they end, loads that host's robots policy, handles the seed's page and then runs a pool of
-- workers over the frontier, which hands each URL out once. The fetcher retries and bounds one
-- request; the reporter prints or stores each page. In the service, the repository holds the crawls in
-- a table, which the API writes to and the workers claim from.
--
-- Files, and what they model (paths from the repository's root):
--   Base            texts as lists of code points, exceptions as values, lists over native numbers.
--   Models          src/url_crawler/models.py
--   Frontier        src/url_crawler/frontier.py; an asyncio.Queue is its items and its count of
--                   unfinished tasks.
--   Crawler         src/url_crawler/crawler.py. Deps holds what the constructor is given; State the
--                   attributes and the monad of the methods, in which a method returns or raises and
--                   keeps what it did; Page, Workers and Seed the methods; the other children prove.
--                   Seed.run is the pool that `run` leaves when it returns, Seed.run_leaves the object
--                   that it leaves in any case, an exception while the seed is followed included.
--   Retry           src/url_crawler/retry.py, in microseconds.
--   Fetcher         src/url_crawler/fetcher.py: Bodies holds the inflater and read_bounded, Fetcher the
--                   handling of a response and the loop over the attempts, Attempts the proofs.
--   Repository      src/url_crawler_service/repository.py on the tables of orm.py (Repository/Rows):
--                   each transaction is a step of the database.
--   DbReporter      src/url_crawler_service/reporter.py and models.py: the page buffer, whose flush is
--                   two steps around its await.
--   Robots          src/url_crawler/robots.py: its loading (Loading), and from its lines to a
--                   decision.
--   Urls            src/url_crawler/urls.py; Parse, Join and Quote are the functions of urllib.parse
--                   that it calls, Form and Shape `normalize`, OnHost its use by the crawler.
--   Parser          src/url_crawler/parser.py, over the nodes that selectolax finds.
--   Config          src/url_crawler/config.py, with the floats that it compares.
--   Settings        src/url_crawler_service/settings.py; Launch the exits of the two scripts' `main`.
--   Schemas         src/url_crawler_service/schemas.py: requests, answers and the stored configuration.
--   Hostcheck       src/url_crawler_service/hostcheck.py
--   Reporting       src/url_crawler/reporting.py: Reporting the text of a page, Jsonl the JSON records,
--                   with Json the `json.dumps` that writes them.
--   Worker          src/url_crawler_service/worker.py: Claiming the claim loop, Watch the heartbeat, Job
--                   the end of a job, Worker its outcome and record, FinalWrite the retried last write,
--                   Run `run_job` as a whole.
--   Api             src/url_crawler_service/api.py: the handlers on the repository's database.
--   Cli             src/url_crawler/cli.py: the exit code of `main`; Options the effect of its options,
--                   Output when it prints what on stderr.
--   Progress        src/url_crawler/progress.py: the status line and the banner.
--   Service         a crawl's pages on their way to the table: DbReporter over Repository, as run_job of
--                   src/url_crawler_service/worker.py runs them, while others write to the database;
--                   Ended adds the record of the job's end.
--   Migration       src/url_crawler_service/alembic/versions/20260908_5ae8b1eef917_create_crawl_and_
--                   page_tables.py, and the tables of orm.py (Models).
--
-- Concurrency. The event loop runs one task at a time and switches at an await. A worker is idle,
-- waits for the delay lock, sleeps, or waits for its fetch (Crawler/Workers.Task), and a schedule is a
-- list of moves of the workers, with the outcome of each fetch in its move. The theorems hold for
-- every schedule, so for every interleaving and every answer of the network. A cancelled run is a
-- schedule that ends early. In Service the steps of one job's reporter interleave with the transactions
-- of everybody else, and each insert is committed before, after or without its answer;
-- a worker that gives up its lease discards the buffer after the crawl's last page.
--
-- Loops recurse on a list or on the count of rounds that the source's `range` gives; no fuel is
-- needed there. The `while True` of `Fetcher.fetch` has fuel for `max_attempts + 1` rounds, which is
-- enough because `retry_delay` gives up at the `max_attempts`-th. `decimal` takes one unit of fuel more
-- than the number, which has no more digits, and so does `grouped`. `write_terminal_state` has fuel for
-- one round more than the lease has ticks of the clock, which moves at each retry. A client of the API
-- that follows the pages has one request more than there are pages.
--
-- Parameters. The network, the output stream, the clock and the functions that a constructor is given
-- are arguments: Crawler/Deps for the crawler, whose `urls` holds the functions of urls.py (Urls.rules
-- fills it) and whose `robots_loader` and `extract` stand for robots.py and parser.py; zlib, the date
-- parser, the random generator and httpx's client for the fetcher; `unquote`, float and the decoding of
-- bytes for robots.txt; the rows locked by others for the repository; Unicode's tables for the URLs;
-- float, int and the environment for the settings; ipaddress and the resolver for the host check; the
-- guard of seeds and the JSONB of a stored configuration, which may raise, for the API; what each call
-- returns and the clock for the worker's loops; the division, the formatting and the `repr` of floats
-- for the output.
--
-- Not modelled: how argparse cuts a command line, FastAPI's routing and the JSON of the API, the HTML
-- parser, the HTTP client, the log, the signal handlers and `_serve`, the database's engine, Alembic's
-- environment and the benchmark under scripts/. These are input and output, or calls of libraries that
-- are not part of the repository.
pub mod Base
pub mod Models
pub mod Frontier
pub mod Crawler
pub mod Repository
pub mod Retry
pub mod Fetcher
pub mod DbReporter
pub mod Robots
pub mod Urls
pub mod Parser
pub mod Config
pub mod Settings
pub mod Schemas
pub mod Hostcheck
pub mod Reporting
pub mod Worker
pub mod Api
pub mod Cli
pub mod Service
pub mod Migration
pub mod Progress
