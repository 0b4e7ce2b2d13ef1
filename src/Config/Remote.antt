-- ===== src/Config/Remote.antt =====
-- `fetch_remote_config` of config.py, and what it checks of addresses. The network is an argument: for
-- an address it gives what the GET gives.
pub mod Accepted
pub mod Fetched
use yeetllm.Common.{
  ℕ, zero, suc, ◌+◌, ◌*◌, Bool, true, false, not, ◌&&◌, ◌||◌, Option, none, some, List, [], ◌∷◌,
  ◌++◌, leb, ltb, ◌==◌, nat_eq, text_eq, all, length, Result, ok, err, ◌>>=◌, ◌>>◌, raise_if,
  if◌then◌else◌,
}
use yeetllm.Common.Text.{Text, Bytes, codes, is_empty, strip, lower, is_digit}
use yeetllm.Common.Text.Parsing.{read_digits}

-- The messages of the `RuntimeValidationError`s, and the `ValueError` of `urlsplit`.
pub data FetchError : Type 0 where
  url_too_long not_https no_hostname embedded_credentials malformed_url : FetchError
  bad_digest digest_mismatch : FetchError
  no_location too_many_redirects : FetchError
  http_status : ℕ → FetchError
  too_large empty timed_out failed : FetchError

-- What `urlsplit` reads of an address.
pub record UrlParts : Type 0 where
  pub scheme : Text
  pub hostname : Option Text
  pub username : Option Text
  pub password : Option Text

-- A streamed response: `interrupted` is the exception that ends its chunks early.
pub record Response : Type 0 where
  pub url : Text
  pub status : ℕ
  pub location : Option Text
  pub content_length : Option Text
  pub chunks : List Bytes
  pub interrupted : Option FetchError

-- `client.stream`: a response, or an exception of httpx.
abbrev pub Web : Type 0
Web = Text → Result FetchError Response

abbrev pub max_bytes : ℕ
max_bytes = 1024 * 1024

abbrev pub max_redirects : ℕ
max_redirects = 5

abbrev pub is_given : Option Text → Bool
is_given none = false
is_given (some s) = true

abbrev pub nonempty : Option Text → Option Text
nonempty none = none
nonempty (some s) = if is_empty s then none else some s

abbrev pub required : Option Text → Result FetchError Text
required none = err no_hostname
required (some host) = ok host

-- `validate_config_url`; `urlsplit` is the standard library's
unfoldable pub validate_config_url :
    (Text → Result FetchError UrlParts) → Text → Result FetchError Text
unfolding lower
validate_config_url urlsplit url =
    raise_if (ltb 8192 (length url)) url_too_long >> urlsplit url >>= λ parsed.
    raise_if (not (lower parsed.scheme == codes "https")) not_https
    >> required (nonempty parsed.hostname)
    >>= λ host.
        raise_if (is_given parsed.username || is_given parsed.password) embedded_credentials
        >> ok host

abbrev pub is_redirect : ℕ → Bool
is_redirect status =
    status == 301 || status == 302 || status == 303 || status == 307 || status == 308

abbrev pub is_above : Option ℕ → Bool
is_above none = false
is_above (some n) = ltb max_bytes n

-- a `Content-Length` of digits only that exceeds the limit
abbrev pub announces_too_much : Option Text → Bool
announces_too_much none = false
announces_too_much (some s) = not (is_empty s) && all is_digit s && is_above (read_digits 0 false s)

abbrev pub finish : Bytes → Option FetchError → Result FetchError Bytes
finish payload (some e) = err e
finish [] none = err empty
finish (c ∷ payload) none = ok (c ∷ payload)

-- the loop over the chunks
unfoldable pub collect : Bytes → List Bytes → Option FetchError → Result FetchError Bytes
collect payload [] interrupted = finish payload interrupted
collect payload (chunk ∷ chunks) interrupted =
    raise_if (ltb max_bytes (length (payload ++ chunk))) too_large
    >> collect (payload ++ chunk) chunks interrupted

-- a response that is not a redirect
unfoldable pub accept : Response → Result FetchError Bytes
unfolding collect all read_digits
accept r =
    raise_if (ltb r.status 200 || leb 300 r.status) (http_status r.status)
    >> raise_if (announces_too_much r.content_length) too_large
    >> collect [] r.chunks r.interrupted

-- What a fetch leaves: the addresses that it has asked, in order, and its result.
abbrev pub Fetch : Type 0
Fetch = List Text × Result FetchError Bytes

-- a check that may raise, before anything else is asked
abbrev pub when_valid {ℓ} : {A : Type ℓ} → Result FetchError A → Fetch → Fetch
when_valid (err e) rest = ([], err e)
when_valid (ok a) rest = rest

abbrev pub follow : (Text → Text → Text) → Text → Option Text → (Text → Fetch) → Fetch
follow urljoin base none next = ([], err no_location)
follow urljoin base (some location) next = next (urljoin base location)

-- what follows the GET, with what is done at the address of a redirect
abbrev pub receive : (Text → Text → Text) → (Text → Fetch) → Result FetchError Response → Fetch
receive urljoin next (err e) = ([], err e)
receive urljoin next (ok r) =
    if is_redirect r.status then follow urljoin r.url (nonempty r.location) next else ([], accept r)

-- one turn of the loop: the address is validated, and asked
unfoldable pub ask :
    Web → (Text → Result FetchError UrlParts) → (Text → Text → Text) → (Text → Fetch) → Text → Fetch
unfolding validate_config_url accept
ask web urlsplit urljoin next url =
    let rest = receive urljoin next (web url) in
    when_valid (validate_config_url urlsplit url) (url ∷ rest.0, rest.1)

-- the loop, with the number of redirects that are left
unfoldable pub fetch_from :
    Web → (Text → Result FetchError UrlParts) → (Text → Text → Text) → ℕ → Text → Fetch
unfolding ask
fetch_from web urlsplit urljoin zero url =
    ask web urlsplit urljoin (λ next. ([], err too_many_redirects)) url
fetch_from web urlsplit urljoin (suc left) url =
    ask web urlsplit urljoin (λ next. fetch_from web urlsplit urljoin left next) url

abbrev pub is_hex : ℕ → Bool
is_hex c = is_digit c || (leb 97 c && leb c 102)

abbrev pub is_digest : Text → Bool
is_digest s = length s == 64 && all is_hex s

abbrev pub normalized : Text → Text
normalized expected = lower (strip expected)

-- the comparison of the digests; `sha256` is the hexadecimal digest
abbrev pub check_digest : (Bytes → Text) → Text → Bytes → Result FetchError Bytes
check_digest sha256 [] payload = ok payload
check_digest sha256 (c ∷ digest) payload =
    raise_if (not (sha256 payload == c ∷ digest)) digest_mismatch >> ok payload

-- the checks before the first GET
abbrev pub check_request :
    (Text → Result FetchError UrlParts) → Text → Text → Result FetchError (Unit {0})
check_request urlsplit url expected =
    validate_config_url urlsplit url
    >> raise_if (not (is_empty (normalized expected)) && not (is_digest (normalized expected)))
        bad_digest

-- `fetch_remote_config`
unfoldable pub fetch_remote_config :
    Web
    → (Text → Result FetchError UrlParts)
    → (Text → Text → Text)
    → (Bytes → Text)
    → Text
    → Text
    → Fetch
unfolding fetch_from lower all
fetch_remote_config web urlsplit urljoin sha256 url expected =
    let fetched = fetch_from web urlsplit urljoin max_redirects (strip url) in
    when_valid (check_request urlsplit (strip url) expected)
      (fetched.0, fetched.1 >>= λ payload. check_digest sha256 (normalized expected) payload)
