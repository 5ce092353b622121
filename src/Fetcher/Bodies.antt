-- ===== src/Fetcher/Bodies.antt =====
-- src/url_crawler/fetcher.py: `_Inflater`, `_inflater_for` and `read_bounded`. A `zlib` object is a state
-- of the library's own, and its `decompress` gives at most the asked number of bytes or fails.
use url_crawler.Base.{
  ℕ, ◌+◌, ◌-◌, [], ◌++◌, Option, none, some, Bool, true, false, ◌||◌, Text, codes, text_eq, ltb,
  if◌then◌else◌, lower, strip, length, take, ◌⊎◌, inl, inr,
}
use url_crawler.Retry.{HttpxClass, decoding_error}

-- An exception of `httpx`: its class as far as the sources tell it apart, `type(exc).__name__`, and its
-- message.
pub record Failure : Type 0 where
  pub class : HttpxClass
  pub name : Text
  pub message : Text

-- The chunks of a response's stream, up to its end or the exception that cuts it.
pub data Chunks : Type 0 where
  ends : Chunks
  breaks : Failure → Chunks
  chunk : Text → Chunks → Chunks

-- `zlib.decompressobj`: for gzip, for zlib's format and for raw deflate.
pub data Wbits : Type 0 where
  gzip_wbits max_wbits raw_wbits : Wbits

-- `decompress` of a state, a chunk and a maximal length; `inl` is `zlib.error` with its text.
pub record Zlib (S : Type 0) : Type 0 where
  pub decompressobj : Wbits → S
  pub decompress : S → Text → ℕ → Text ⊎ (Text × S)

-- `_Inflater`: its decompressor, and whether raw deflate is still to be tried.
pub record Inflater (S : Type 0) : Type 0 where
  pub decompressor : S
  pub fallback : Bool

-- What `read_bounded` returns or raises.
pub data Body : Type 0 where
  read : Text → Bool → Body
  broken : Failure → Body

-- `httpx.DecodingError(message)`.
abbrev pub decoding : Text → Failure
decoding message = record {
  class = decoding_error;
  name = codes "DecodingError";
  message = message;
}

-- The exception of `inflate` and `_inflater_for`, or their value.
pub data Decoded (A : Type 0) : Type 0 where
  decoded : A → Decoded A
  undecodable : Failure → Decoded A

module _ {S : Type 0} (zlib : Zlib S) where
  abbrev pub plain : Text ⊎ (Text × S) → Decoded (Text × Inflater S)
  plain (inl message) = undecodable (decoding message)
  plain (inr (out, s)) = decoded (out, record { decompressor = s; fallback = false })

  -- The first chunk of a `deflate` body may be raw.
  unfoldable pub inflate : Inflater S → Text → ℕ → Decoded (Text × Inflater S)
  inflate i piece max_length =
      let first = zlib.decompress i.decompressor piece max_length in
      let again = zlib.decompress (zlib.decompressobj raw_wbits) piece max_length in
      if i.fallback
      then elim first [ inl message ↦ plain again | inr x ↦ plain (inr x) ]
      else plain first

  abbrev pub opened : Wbits → Bool → Decoded (Option (Inflater S))
  opened wbits fallback =
      decoded (some record { decompressor = zlib.decompressobj wbits; fallback = fallback })

  -- `repr` of an encoding without quotes or escapes only adds the quotes.
  unfoldable pub inflater_for : Text → Decoded (Option (Inflater S))
  inflater_for content_encoding =
      let encoding = lower (strip content_encoding) in
      if text_eq encoding (codes "gzip") || text_eq encoding (codes "x-gzip")
      then opened gzip_wbits false
      else if text_eq encoding (codes "deflate")
      then opened max_wbits true
      else if text_eq encoding [] || text_eq encoding (codes "identity")
      then decoded none
      else undecodable (decoding (codes "unsupported content-encoding '" ++ encoding ++ codes "'"))

  -- What one capped chunk adds to the body.
  abbrev pub extended : ℕ → Option (Inflater S) → Text → Text → Decoded (Text × Option (Inflater S))
  extended max_bytes none body capped = decoded (body ++ capped, none)
  extended max_bytes (some i) body capped = elim (inflate i capped (max_bytes + 1 - length body)) [
    | decoded (out, j) ↦ decoded (body ++ out, some j)
    | undecodable e ↦ undecodable e
  ]

  -- The loop over the stream, with `raw_bytes` and the body so far.
  unfoldable pub read_chunks : ℕ → Option (Inflater S) → ℕ → Text → Chunks → Body
  unfolding inflate
  read_chunks max_bytes inflater raw_bytes body ends = read body false
  read_chunks max_bytes inflater raw_bytes body (breaks e) = broken e
  read_chunks max_bytes inflater raw_bytes body (chunk c rest) =
      elim (extended max_bytes inflater body (take (max_bytes - raw_bytes) c)) [
        | undecodable e ↦ broken e
        | decoded (more, next) ↦
            let onward = read_chunks max_bytes next (raw_bytes + length c) more rest in
            if ltb max_bytes (raw_bytes + length c) || ltb max_bytes (length more)
            then read (take max_bytes more) true
            else onward
      ]

  unfoldable pub read_bounded : ℕ → Text → Chunks → Body
  unfolding inflater_for read_chunks
  read_bounded max_bytes content_encoding stream = elim (inflater_for content_encoding) [
    | undecodable e ↦ broken e
    | decoded inflater ↦ read_chunks max_bytes inflater 0 [] stream
  ]
