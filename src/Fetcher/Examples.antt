-- ===== src/Fetcher/Examples.antt =====
-- A server that is overloaded once (src/url_crawler/fetcher.py and retry.py).
use url_crawler.Fetcher.Bounded.{
  all_of, cut_by, first_of, Fits, read_bounded_plain, read_bounded-Fits,
}
use url_crawler.Base.{
  ℕ, ◌≤◌, ◌<◌, Option, none, some, ◌≡◌, refl, true, Text, codes, clamped_int, arith, inl, ◌==◌,
  if◌then◌else◌, rstrip, lstrip, text_eq,
}
use url_crawler.Retry.{retry_delay, retryable, retries_status, max_retry_after, retry_delay-bounds}
use url_crawler.Fetcher.Bodies.{ends, chunk, Zlib, Chunks, read_bounded, inflater_for}
use url_crawler.Fetcher.{Response, Answer, responded, Fetcher, fetch}
use url_crawler.Fetcher.Attempts.{Returns, fetch-Returns}

abbrev no_jitter : ℕ → ℕ → ℕ
no_jitter n cap = 0

abbrev response : ℕ → Option Text → Response
response status retry_after = record {
  status = status;
  content_type = some (codes "text/html");
  location = none;
  retry_after = retry_after;
  content_encoding = none;
  content_length = none;
  stream = chunk (codes "<a>") ends;
}

abbrev server : ℕ → Answer
server n =
    if n == 1 then responded (response 503 (some (codes "7"))) else responded (response 200 none)

abbrev no_zlib : Zlib Unit
no_zlib = record {
  decompressobj = λ wbits. tt;
  decompress = λ s piece max_length. inl (codes "Error -3");
}

abbrev fetcher : Fetcher Unit
fetcher = record {
  zlib = no_zlib;
  max_bytes = 100;
  max_attempts = 3;
  draw = no_jitter;
  http_date = λ value. none;
  now = λ n. 0;
}

fetch-Returns_example :
    Returns fetcher (codes "u") (λ n cap. omega arith) (fetch fetcher (codes "u") server)
fetch-Returns_example = fetch-Returns fetcher (codes "u") (λ n cap. omega arith) server

retry_delay-bounds_example :
    (1 < 3)
    × (retryable none ≡ true)
    × (retries_status (some 503) ≡ true)
    × (7000000 ≤ max_retry_after)
unfolding retry_delay clamped_int
retry_delay-bounds_example =
    retry_delay-bounds no_jitter (λ n cap. omega arith) (λ value. none) (some 503) none 1 3
      (some (codes "7")) 0 7000000 refl

abbrev two_chunks : Chunks
two_chunks = chunk (codes "<a>") (chunk (codes "</a>") ends)

read_bounded_plain_example :
    read_bounded no_zlib 5 (codes "identity") two_chunks
    ≡ first_of 5 (all_of two_chunks) (cut_by two_chunks)
unfolding inflater_for text_eq rstrip lstrip
read_bounded_plain_example = read_bounded_plain no_zlib 5 (codes "identity") two_chunks refl

body_fits : Fits no_zlib 5 (read_bounded no_zlib 5 (codes "identity") two_chunks)
body_fits = read_bounded-Fits no_zlib 5 (codes "identity") two_chunks
