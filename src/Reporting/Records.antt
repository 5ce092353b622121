-- ===== src/Reporting/Records.antt =====
-- That the JSON output of src/url_crawler/reporting.py can be read back, line by line and text by text.
use url_crawler.Base.{
  ℕ, List, [], ◌∷◌, ◌++◌, Option, none, some, Text, codes, has_char, split_on, append_assoc, ◌∙◌,
  ◌≡◌, refl, ap, arith,
}
use url_crawler.Models.{FetchError, PageResult, Counter, CrawlStats}
use url_crawler.Reporting.Json.{
  Json, null, number, float, string, array, object, Items, no_items, item, Members, no_members,
  member, escape, escaped, quoted, dumps, dump_items, dump_more, dump_members, dump_others,
}
use url_crawler.Reporting.Jsonl.{
  number_or_null, strings, error_of, page_record, counts, write_record, summary_record,
  write_summary, written,
}
use url_crawler.Reporting.Lines.{append-Lacks, decimal-Lacks}
use url_crawler.Urls.Words.{Lacks, split_on-append}

escape-Lacks : (c : ℕ) → Lacks b'\n' (escape c)
unfolding escape has_char
escape-Lacks c = ground arith

escaped-Lacks : (s : Text) → Lacks b'\n' (escaped s)
unfolding escaped has_char
escaped-Lacks [] = refl
escaped-Lacks (c ∷ s) = append-Lacks b'\n' (escape c) (escaped s) (escape-Lacks c) (escaped-Lacks s)

quoted-Lacks : (s : Text) → Lacks b'\n' (quoted s)
unfolding has_char
quoted-Lacks s = append-Lacks b'\n' (escaped s) (b'"' ∷ []) (escaped-Lacks s) refl

-- The floats of a value lack newlines.
abbrev mutual
  pub IsPlain : Json → Type 0
  IsPlain (float text) = Lacks b'\n' text
  IsPlain (array items) = ItemsPlain items
  IsPlain (object members) = MembersPlain members
  IsPlain null = Unit {0}
  IsPlain (number n) = Unit {0}
  IsPlain (string s) = Unit {0}

  pub ItemsPlain : Items → Type 0
  ItemsPlain no_items = Unit {0}
  ItemsPlain (item j more) = IsPlain j × ItemsPlain more

  pub MembersPlain : Members → Type 0
  MembersPlain no_members = Unit {0}
  MembersPlain (member key j more) = IsPlain j × MembersPlain more

mutual
  unfolding dumps has_char

  dumps-Lacks : (j : Json) → IsPlain j → Lacks b'\n' (dumps j)
  dumps-Lacks null h = refl
  dumps-Lacks (number n) h = decimal-Lacks n
  dumps-Lacks (float text) h = h
  dumps-Lacks (string s) h = quoted-Lacks s
  dumps-Lacks (array items) h =
      append-Lacks b'\n' (dump_items items) (codes "]") (items-Lacks items h) refl
  dumps-Lacks (object members) h =
      append-Lacks b'\n' (dump_members members) (codes "}") (members-Lacks members h) refl

  items-Lacks : (items : Items) → ItemsPlain items → Lacks b'\n' (dump_items items)
  items-Lacks no_items h = refl
  items-Lacks (item j more) (h, hs) =
      append-Lacks b'\n' (dumps j) (dump_more more) (dumps-Lacks j h) (more-Lacks more hs)

  more-Lacks : (items : Items) → ItemsPlain items → Lacks b'\n' (dump_more items)
  more-Lacks no_items h = refl
  more-Lacks (item j more) (h, hs) =
      append-Lacks b'\n' (dumps j) (dump_more more) (dumps-Lacks j h) (more-Lacks more hs)

  members-Lacks : (members : Members) → MembersPlain members → Lacks b'\n' (dump_members members)
  members-Lacks no_members h = refl
  members-Lacks (member key j more) (h, hs) =
      append-Lacks b'\n' (quoted key) (codes ": " ++ (dumps j ++ dump_others more))
        (quoted-Lacks key)
        (append-Lacks b'\n' (dumps j) (dump_others more) (dumps-Lacks j h) (others-Lacks more hs))

  others-Lacks : (members : Members) → MembersPlain members → Lacks b'\n' (dump_others members)
  others-Lacks no_members h = refl
  others-Lacks (member key j more) (h, hs) =
      append-Lacks b'\n' (quoted key) (codes ": " ++ (dumps j ++ dump_others more))
        (quoted-Lacks key)
        (append-Lacks b'\n' (dumps j) (dump_others more) (dumps-Lacks j h) (others-Lacks more hs))

number_or_null-Plain : (n : Option ℕ) → IsPlain (number_or_null n)
number_or_null-Plain none = tt
number_or_null-Plain (some n) = tt

strings-Plain : (ss : List Text) → ItemsPlain (strings ss)
strings-Plain [] = tt
strings-Plain (s ∷ ss) = (tt, strings-Plain ss)

error_of-Plain : (error : Option FetchError) → IsPlain (error_of error)
error_of-Plain none = tt
error_of-Plain (some error) = (tt, (number_or_null-Plain error.status, (tt, tt)))

counts-Plain : (c : Counter) → MembersPlain (counts c)
counts-Plain [] = tt
counts-Plain ((kind, n) ∷ rest) = (tt, counts-Plain rest)

page_record-Plain : (result : PageResult) → IsPlain (page_record result)
page_record-Plain result = (
  tt,
  (
    number_or_null-Plain result.status,
    (strings-Plain result.links, (error_of-Plain result.error, tt)),
  ),
)

summary-Plain :
    (seconds_repr : ℕ → Text)
    → ((n : ℕ) → Lacks b'\n' (seconds_repr n))
    → (stats : CrawlStats) (elapsed : ℕ) → IsPlain (summary_record seconds_repr stats elapsed)
summary-Plain seconds_repr plain stats elapsed = (
  (tt, (counts-Plain stats.pages_failed, (tt, (tt, (tt, (tt, (tt, (tt, (plain elapsed, tt))))))))),
  tt,
)

-- The lines of the output; the last one is what follows the last newline.
abbrev pub record_lines : (ℕ → Text) → List PageResult → CrawlStats → ℕ → List Text
record_lines seconds_repr [] stats elapsed =
    dumps (summary_record seconds_repr stats elapsed) ∷ [] ∷ []
record_lines seconds_repr (result ∷ results) stats elapsed =
    dumps (page_record result) ∷ record_lines seconds_repr results stats elapsed

-- Whatever the URLs, messages and links hold, newlines included: the output splits at its newlines into
-- exactly one record for each reported page, in order, then the summary, and nothing after its newline.
pub written-split_on :
    (seconds_repr : ℕ → Text)
    → ((n : ℕ) → Lacks b'\n' (seconds_repr n))
    → (results : List PageResult) (stats : CrawlStats) (elapsed : ℕ)
    → split_on b'\n' (written seconds_repr results stats elapsed)
      ≡ record_lines seconds_repr results stats elapsed
unfolding written write_summary write_record split_on
written-split_on seconds_repr plain [] stats elapsed =
    split_on-append b'\n' (dumps (summary_record seconds_repr stats elapsed)) [] (
      dumps-Lacks (summary_record seconds_repr stats elapsed)
        (summary-Plain seconds_repr plain stats elapsed))
written-split_on seconds_repr plain (result ∷ results) stats elapsed =
    ap (split_on b'\n') (
      append_assoc (dumps (page_record result)) (b'\n' ∷ [])
        (written seconds_repr results stats elapsed))
    ∙ split_on-append b'\n' (dumps (page_record result))
        (written seconds_repr results stats elapsed)
        (dumps-Lacks (page_record result) (page_record-Plain result))
    ∙ ap (◌∷◌ (dumps (page_record result)))
        (written-split_on seconds_repr plain results stats elapsed)
