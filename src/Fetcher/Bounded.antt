-- ===== src/Fetcher/Bounded.antt =====
-- What `read_bounded` of src/url_crawler/fetcher.py reads of a stream.
use url_crawler.Base.{
  ℕ, zero, suc, ◌+◌, ◌-◌, ◌≤◌, ◌<◌, [], ◌∷◌, ◌++◌, Option, none, some, true, false, ◌||◌, Text, ltb,
  if◌then◌else◌, length, take, length-append, length-take, append-nil, append_assoc, ◌≡◌, refl, sym,
  ap, subst, ◌∙◌, arith, Bool-cases, inl, inr,
}
use url_crawler.Fetcher.Bodies.{
  Chunks, ends, breaks, chunk, Zlib, Inflater, Failure, Body, read, broken, Decoded, decoded,
  undecodable, inflater_for, extended, read_chunks, read_bounded,
}

-- The bytes of a stream, and the exception that cuts it.
unfoldable pub all_of : Chunks → Text
all_of ends = []
all_of (breaks e) = []
all_of (chunk c rest) = c ++ all_of rest

unfoldable pub cut_by : Chunks → Option Failure
cut_by ends = none
cut_by (breaks e) = some e
cut_by (chunk c rest) = cut_by rest

abbrev unless_cut : Option Failure → Text → Body
unless_cut none all = read all false
unless_cut (some e) all = broken e

-- The first `max_bytes` bytes where the stream has more; where it has not, all of them, unless it is
-- cut.
unfoldable pub first_of : ℕ → Text → Option Failure → Body
first_of max_bytes all cut =
    if ltb max_bytes (length all) then read (take max_bytes all) true else unless_cut cut all

take-append :
    (n : ℕ) (xs ys : Text) → length xs ≤ n → take n (xs ++ ys) ≡ xs ++ take (n - length xs) ys
take-append n [] ys h = ap (λ k. take k ys) (omega arith)
take-append zero (x ∷ xs) ys h = absurd (omega arith)
take-append (suc n) (x ∷ xs) ys h =
    ap (◌∷◌ x) (take-append n xs ys (omega (arith, h)) ∙ ap (λ k. xs ++ take k ys) (omega arith))

take-all : (n : ℕ) (xs : Text) → length xs ≤ n → take n xs ≡ xs
take-all zero [] h = refl
take-all zero (x ∷ xs) h = absurd (omega arith)
take-all (suc n) [] h = refl
take-all (suc n) (x ∷ xs) h = ap (◌∷◌ x) (take-all n xs (omega (arith, h)))

take-take-append : (n : ℕ) (xs ys : Text) → n ≤ length xs → take n (take n xs) ≡ take n (xs ++ ys)
take-take-append zero xs ys h = refl
take-take-append (suc n) [] ys h = absurd (omega arith)
take-take-append (suc n) (x ∷ xs) ys h = ap (◌∷◌ x) (take-take-append n xs ys (omega (arith, h)))

module _ {S : Type 0} (zlib : Zlib S) where
  -- A chunk that goes past the cap.
  over_cap :
      (max_bytes : ℕ) (body c rest : Text) (cut : Option Failure)
      → length body ≤ max_bytes
      → max_bytes < length body + length c
      → read (take max_bytes (body ++ take (max_bytes - length body) c)) true
        ≡ first_of max_bytes (body ++ (c ++ rest)) cut
  unfolding first_of
  over_cap max_bytes body c rest cut l h =
      let k = max_bytes - length body in
      let big : ltb max_bytes (length (body ++ (c ++ rest))) ≡ true =
        ground (arith, h, length-append body (c ++ rest), length-append c rest) in
      let cuts : take max_bytes (body ++ take k c) ≡ take max_bytes (body ++ (c ++ rest)) =
        take-append max_bytes body (take k c) l
        ∙ ap (λ b. body ++ b) (take-take-append k c rest (omega (arith, h)))
        ∙ sym (take-append max_bytes body (c ++ rest) l) in
      rw (first_of, big) (ap (λ b. read b true) cuts)

  read_chunks_plain :
      (max_bytes raw_bytes : ℕ) (body : Text) (stream : Chunks)
      → length body ≡ raw_bytes
      → raw_bytes ≤ max_bytes
      → read_chunks zlib max_bytes none raw_bytes body stream
        ≡ first_of max_bytes (body ++ all_of stream) (cut_by stream)
  unfolding read_chunks first_of all_of cut_by
  read_chunks_plain max_bytes raw_bytes body ends e l =
      let small : ltb max_bytes (length body) ≡ false = ground (arith, e, l) in
      rw (append-nil body, first_of, small) refl
  read_chunks_plain max_bytes raw_bytes body (breaks x) e l =
      let small : ltb max_bytes (length body) ≡ false = ground (arith, e, l) in
      rw (append-nil body, first_of, small) refl
  read_chunks_plain max_bytes raw_bytes body (chunk c rest) e l =
      elim (Bool-cases (ltb max_bytes (raw_bytes + length c))) [
        | inl h ↦
            let capped =
              subst
                (λ n.
                  read (take max_bytes (body ++ take (max_bytes - n) c)) true
                  ≡ first_of max_bytes (body ++ (c ++ all_of rest)) (cut_by rest))
                e
                (over_cap max_bytes body c (all_of rest) (cut_by rest) (omega (arith, e, l))
                  (ground (arith, e, h))) in
            rw (read_chunks, h) capped
        | inr h ↦
            let fits : raw_bytes + length c ≤ max_bytes = ground (arith, h) in
            let whole : take (max_bytes - raw_bytes) c ≡ c =
              take-all (max_bytes - raw_bytes) c (omega (arith, fits)) in
            let grown : length (body ++ c) ≡ raw_bytes + length c =
              omega (arith, length-append body c, e) in
            let onward =
              read_chunks_plain max_bytes (raw_bytes + length c) (body ++ c) rest grown fits in
            rw (read_chunks, whole, grown, h)
              (onward
                ∙ ap (λ b. first_of max_bytes b (cut_by rest)) (append_assoc body c (all_of rest)))
      ]

  -- For a response without a content encoding, and for every way in which its bytes come in chunks:
  -- `read_bounded` gives all of them and that they are within the cap, or the first `max_bytes` and
  -- that there are more; it raises exactly when the stream is cut within the cap, by the exception that
  -- cuts it.
  pub read_bounded_plain :
      (max_bytes : ℕ) (content_encoding : Text) (stream : Chunks)
      → inflater_for zlib content_encoding ≡ decoded none
      → read_bounded zlib max_bytes content_encoding stream
        ≡ first_of max_bytes (all_of stream) (cut_by stream)
  unfolding read_bounded
  read_bounded_plain max_bytes content_encoding stream e =
      rw (read_bounded, e) (read_chunks_plain max_bytes 0 [] stream refl (omega arith))

  abbrev pub Fits : ℕ → Body → Type 0
  Fits max_bytes (read body too_large) = length body ≤ max_bytes
  Fits max_bytes (broken e) = Unit {0}

  read_chunks-Fits :
      (max_bytes raw_bytes : ℕ) (i : Option (Inflater S)) (body : Text) (stream : Chunks)
      → length body ≤ max_bytes
      → Fits max_bytes (read_chunks zlib max_bytes i raw_bytes body stream)
  unfolding read_chunks
  read_chunks-Fits max_bytes raw_bytes i body ends l = l
  read_chunks-Fits max_bytes raw_bytes i body (breaks x) l = tt
  read_chunks-Fits max_bytes raw_bytes i body (chunk c rest) l =
      after_chunk (extended zlib max_bytes i body (take (max_bytes - raw_bytes) c)) refl
        (λ next more. read_chunks-Fits max_bytes (raw_bytes + length c) next more rest)
    where
      after_chunk :
          (x : Decoded (Text × Option (Inflater S)))
          → extended zlib max_bytes i body (take (max_bytes - raw_bytes) c) ≡ x
          → ((next : Option (Inflater S)) (more : Text)
              → length more ≤ max_bytes
              → Fits max_bytes (read_chunks zlib max_bytes next (raw_bytes + length c) more rest))
          → Fits max_bytes (read_chunks zlib max_bytes i raw_bytes body (chunk c rest))
      after_chunk (undecodable x) e onward = rw (read_chunks, e) tt
      after_chunk (decoded (more, next)) e onward =
          elim (Bool-cases (ltb max_bytes (raw_bytes + length c) || ltb max_bytes (length more))) [
            | inl h ↦ rw (read_chunks, e, h) (omega (arith, length-take max_bytes more))
            | inr h ↦ rw (read_chunks, e, h) (onward next more (ground (arith, h)))
          ]

  -- Whatever the encoding, the stream and the decompressor, a body that `read_bounded` returns has at
  -- most `max_bytes` bytes.
  pub read_bounded-Fits :
      (max_bytes : ℕ) (content_encoding : Text) (stream : Chunks)
      → Fits max_bytes (read_bounded zlib max_bytes content_encoding stream)
  unfolding read_bounded
  read_bounded-Fits max_bytes content_encoding stream =
      after_encoding (inflater_for zlib content_encoding) refl
    where
      after_encoding :
          (x : Decoded (Option (Inflater S)))
          → inflater_for zlib content_encoding ≡ x
          → Fits max_bytes (read_bounded zlib max_bytes content_encoding stream)
      after_encoding (undecodable x) e = rw (read_bounded, e) tt
      after_encoding (decoded i) e =
          rw (read_bounded, e) (read_chunks-Fits max_bytes 0 i [] stream (omega arith))
