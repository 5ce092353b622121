-- ===== src/Reporting/Lines.antt =====
-- That the text output of src/url_crawler/reporting.py can be read back line by line.
use url_crawler.Base.{
  ℕ, List, [], ◌∷◌, ◌++◌, Option, none, some, ◌&&◌, zero, suc, ◌+◌, ◌/◌, ◌%◌, decimal_fuel,
  Bool-cases, inl, inr, ltb, leb, ◌≡◌, refl, ap, arith, Text, codes, map, decimal, has_char, All,
  split_on, join, append_assoc, ◌∙◌,
}
use url_crawler.Models.{
  FetchError, FetchErrorKind, timeout, connection, http_status, unsupported_content, too_large,
  invalid_url, protocol, internal, kind_value, PageResult,
}
use url_crawler.Reporting.{
  status_part, redirect_part, note, header, indented, line, write_links, write_page,
}
use url_crawler.Urls.Words.{Lacks, split_on-join}

-- The lines of a page's block; the last one is what follows the block's last newline.
abbrev pub lines_of : PageResult → List Text
lines_of page = header page ∷ map indented page.links ++ [] ∷ [] ∷ []

write_links-join :
    (head : Text) (links : List Text)
    → line head ++ (write_links links ++ line [])
      ≡ join b'\n' (head ∷ map indented links ++ [] ∷ [] ∷ [])
unfolding write_links join
write_links-join head [] = append_assoc head (b'\n' ∷ []) (line [])
write_links-join head (link ∷ links) =
    append_assoc head (b'\n' ∷ []) ((line (indented link) ++ write_links links) ++ line [])
    ∙ ap (λ s. head ++ b'\n' ∷ s)
        (append_assoc (line (indented link)) (write_links links) (line [])
          ∙ write_links-join (indented link) links)

pub append-Lacks : (c : ℕ) (s t : Text) → Lacks c s → Lacks c t → Lacks c (s ++ t)
unfolding has_char
append-Lacks c [] t h k = k
append-Lacks c (d ∷ s) t h k = ground (arith, h, append-Lacks c s t)

decimal_fuel-Lacks : (f n : ℕ) → Lacks b'\n' (decimal_fuel f n)
unfolding decimal_fuel has_char
decimal_fuel-Lacks zero n = refl
decimal_fuel-Lacks (suc f) n = elim (Bool-cases (ltb n 10)) [
  | inl e ↦ rw e (ground arith)
  | inr e ↦ rw e (
      append-Lacks b'\n' (decimal_fuel f (n / 10)) ((b'0' + n % 10) ∷ [])
        (decimal_fuel-Lacks f (n / 10)) (ground arith))
]

pub decimal-Lacks : (n : ℕ) → Lacks b'\n' (decimal n)
unfolding decimal
decimal-Lacks n = decimal_fuel-Lacks (n + 1) n

pub kind_value-Lacks : (kind : FetchErrorKind) → Lacks b'\n' (kind_value kind)
unfolding has_char
kind_value-Lacks timeout = refl
kind_value-Lacks connection = refl
kind_value-Lacks http_status = refl
kind_value-Lacks unsupported_content = refl
kind_value-Lacks too_large = refl
kind_value-Lacks invalid_url = refl
kind_value-Lacks protocol = refl
kind_value-Lacks internal = refl

status_part-Lacks : (status : Option ℕ) → Lacks b'\n' (status_part status)
unfolding has_char
status_part-Lacks none = refl
status_part-Lacks (some n) = decimal-Lacks n

redirect_part-Lacks : (status : Option ℕ) → Lacks b'\n' (redirect_part status)
unfolding has_char
redirect_part-Lacks none = refl
redirect_part-Lacks (some n) = elim (Bool-cases (leb 300 n && ltb n 400)) [
  | inl e ↦ rw e (append-Lacks b'\n' (decimal n) (codes "]") (decimal-Lacks n) refl)
  | inr e ↦ rw e refl
]

note-Lacks : (error : Option FetchError) (status : Option ℕ) → Lacks b'\n' (note error status)
unfolding has_char
note-Lacks none status = redirect_part-Lacks status
note-Lacks (some error) status =
    append-Lacks b'\n' (kind_value error.kind ++ status_part error.status) (codes "]")
      (append-Lacks b'\n' (kind_value error.kind) (status_part error.status)
        (kind_value-Lacks error.kind) (status_part-Lacks error.status))
      refl

indented-Lacks :
    (links : List Text)
    → All (Lacks b'\n') links
    → All (Lacks b'\n') (map indented links ++ [] ∷ [] ∷ [])
unfolding has_char
indented-Lacks [] h = (refl, (refl, tt))
indented-Lacks (link ∷ links) (h, hs) = (h, indented-Lacks links hs)

-- Where neither the page's URL nor a link has a newline, splitting the text that is written for the
-- page gives its header, each of its links in order on a line of its own, and an empty line.
pub write_page-split_on :
    (page : PageResult)
    → Lacks b'\n' page.url
    → All (Lacks b'\n') page.links
    → split_on b'\n' (write_page page) ≡ lines_of page
unfolding write_page header
write_page-split_on page h hs =
    ap (split_on b'\n') (
      append_assoc (line (header page)) (write_links page.links) (line [])
      ∙ write_links-join (header page) page.links)
    ∙ split_on-join b'\n' (header page) (map indented page.links ++ [] ∷ [] ∷ []) (
      append-Lacks b'\n' page.url (note page.error page.status) h
          (note-Lacks page.error page.status),
      indented-Lacks page.links hs,
    )
