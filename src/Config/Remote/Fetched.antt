-- ===== src/Config/Remote/Fetched.antt =====
-- What a configuration that was fetched has passed.
use yeetllm.Common.{
  ℕ, zero, suc, ◌≤◌, ◌<◌, ◌≡◌, refl, ◌⊎◌, inl, inr, arith, true, not, some, List, [], ◌∷◌, ◌==◌,
  text_eq, eq_iff, length, All, Bool-cases, Option-cases, Result, ok, err, ◌>>=◌, >>=-eq-ok,
}
use yeetllm.Common.Text.{Text, Bytes, strip}
use yeetllm.Common.Text.Slices.{concat}
use yeetllm.Config.Remote.{
  FetchError, no_location, digest_mismatch, UrlParts, Response, Web, max_redirects, nonempty,
  validate_config_url, is_redirect, accept, Fetch, when_valid, follow, receive, ask, fetch_from,
  normalized, check_digest, check_request, fetch_remote_config,
}
use yeetllm.Config.Remote.Accepted.{checked, IsWithinLimit, accept-ok}

-- A check that raises asks nothing; what holds then and behind a check that passed holds of both.
when_valid-log {ℓ} :
    {A : Type ℓ} (P : List Text → Type 0) (checks : Result FetchError A) (rest : Fetch)
    → P []
    → ((a : A) → checks ≡ ok a → P rest.0)
    → P (when_valid checks rest).0
when_valid-log P (err e) rest nothing more = nothing
when_valid-log P (ok a) rest nothing more = more a refl

when_valid-ok {ℓ} :
    {A : Type ℓ} (checks : Result FetchError A) (rest : Fetch) (payload : Bytes)
    → (when_valid checks rest).1 ≡ ok payload
    → (a : A) × (checks ≡ ok a) × (rest.1 ≡ ok payload)
when_valid-ok (err e) rest payload h = absurd (cc h)
when_valid-ok (ok a) rest payload h = (a, refl, h)

-- What is asked after a response is what is asked at the address of its redirect.
receive-log :
    (P : List Text → Type 0) (urljoin : Text → Text → Text) (next : Text → Fetch)
    (answer : Result FetchError Response)
    → P []
    → ((url : Text) → P (next url).0)
    → P (receive urljoin next answer).0
receive-log P urljoin next (err e) nothing more = nothing
receive-log P urljoin next (ok r) nothing more = elim (Bool-cases (is_redirect r.status)) [
  | inr final ↦ rw final nothing
  | inl moved ↦ rw moved (elim (Option-cases (nonempty r.location)) [
    | inl missing ↦ rw missing nothing
    | inr (location, there) ↦ rw there (more (urljoin r.url location))
  ])
]

-- A turn of the loop that ends well: the response is taken, or another address gives the payload.
receive-ok :
    (urljoin : Text → Text → Text) (next : Text → Fetch) (answer : Result FetchError Response)
    (payload : Bytes)
    → (receive urljoin next answer).1 ≡ ok payload
    → (r : Response) × (answer ≡ ok r)
      × ((accept r ≡ ok payload)
          ⊎ ((location : Text) × (is_redirect r.status ≡ true)
              × (nonempty r.location ≡ some location)
              × ((next (urljoin r.url location)).1 ≡ ok payload)))
receive-ok urljoin next (err e) payload h = absurd (cc h)
receive-ok urljoin next (ok r) payload h = (
  r,
  refl,
  elim (Bool-cases (is_redirect r.status)) [
    | inr final ↦ inl (rw final at h)
    | inl moved ↦
        let on : (follow urljoin r.url (nonempty r.location) next).1 ≡ ok payload = rw moved at h in
        elim (Option-cases (nonempty r.location)) [
          | inl missing ↦
              let bad : err no_location ≡ ok payload = rw missing at on in absurd (cc bad)
          | inr (location, there) ↦ inr (location, moved, there, rw there at on)
        ]
  ],
)

module _ (web : Web) (urlsplit : Text → Result FetchError UrlParts)
    (urljoin : Text → Text → Text) where
  -- An address that was checked before it was asked.
  abbrev pub IsChecked : Text → Type 0
  IsChecked url = (host : Text) × (validate_config_url urlsplit url ≡ ok host)

  -- A payload that an address gives, by at most so many redirects.
  pub data Gives : ℕ → Text → Bytes → Type 0 where
    here :
        (left : ℕ) (url : Text) (r : Response) (payload : Bytes)
        → IsChecked url
        → web url ≡ ok r
        → (200 ≤ r.status) × (r.status < 300) × (payload ≡ concat r.chunks) × IsWithinLimit payload
        → Gives left url payload
    redirected :
        (left : ℕ) (url location : Text) (r : Response) (payload : Bytes)
        → IsChecked url
        → web url ≡ ok r
        → is_redirect r.status ≡ true
        → nonempty r.location ≡ some location
        → Gives left (urljoin r.url location) payload
        → Gives (suc left) url payload

  -- So many addresses at most are asked, each of which was checked.
  abbrev pub AreChecked : ℕ → List Text → Type 0
  AreChecked most log = All IsChecked log × (length log ≤ most)

  ask-AreChecked :
      (most : ℕ) (next : Text → Fetch) (url : Text)
      → ((location : Text) → AreChecked most (next location).0)
      → AreChecked (suc most) (ask web urlsplit urljoin next url).0
  unfolding ask
  ask-AreChecked most next url later =
      let rest = receive urljoin next (web url) in
      let (each, few) =
        receive-log (AreChecked most) urljoin next (web url) (tt, omega arith) later in
      when_valid-log (AreChecked (suc most)) (validate_config_url urlsplit url)
        (url ∷ rest.0, rest.1) (tt, omega arith)
        (λ host valid. (((host, valid), each), omega (arith, few)))

  fetch_from-AreChecked :
      (left : ℕ) (url : Text) → AreChecked (suc left) (fetch_from web urlsplit urljoin left url).0
  unfolding fetch_from
  fetch_from-AreChecked zero url = ask-AreChecked 0 _ url (λ location. (tt, omega arith))
  fetch_from-AreChecked (suc left) url =
      ask-AreChecked (suc left) _ url (λ location. fetch_from-AreChecked left location)

  -- An address that gives a payload: its response is taken, or redirects to one that gives it.
  ask-ok :
      (next : Text → Fetch) (url : Text) (payload : Bytes)
      → (ask web urlsplit urljoin next url).1 ≡ ok payload
      → IsChecked url
        × ((r : Response) × (web url ≡ ok r)
            × ((accept r ≡ ok payload)
                ⊎ ((location : Text) × (is_redirect r.status ≡ true)
                    × (nonempty r.location ≡ some location)
                    × ((next (urljoin r.url location)).1 ≡ ok payload))))
  unfolding ask
  ask-ok next url payload h =
      let rest = receive urljoin next (web url) in
      let (host, valid, received) =
        when_valid-ok (validate_config_url urlsplit url) (url ∷ rest.0, rest.1) payload h in
      ((host, valid), receive-ok urljoin next (web url) payload received)

  fetch_from-Gives :
      (left : ℕ) (url : Text) (payload : Bytes)
      → (fetch_from web urlsplit urljoin left url).1 ≡ ok payload
      → Gives left url payload
  unfolding fetch_from
  fetch_from-Gives zero url payload h =
      let (valid, (r, answered, way)) = ask-ok _ url payload h in
      elim way [
        | inl taken ↦ Gives.here zero url r payload valid answered (accept-ok r payload taken)
        | inr (location, moved, there, next) ↦ absurd (cc next)
      ]
  fetch_from-Gives (suc left) url payload h =
      let (valid, (r, answered, way)) = ask-ok _ url payload h in
      elim way [
        | inl taken ↦ Gives.here (suc left) url r payload valid answered (accept-ok r payload taken)
        | inr (location, moved, there, next) ↦
            Gives.redirected left url location r payload valid answered moved there
              (fetch_from-Gives left (urljoin r.url location) payload next)
      ]

  -- Whatever the way, the payload is within the limit.
  Gives-IsWithinLimit :
      (left : ℕ) (url : Text) (payload : Bytes) → Gives left url payload → IsWithinLimit payload
  Gives-IsWithinLimit _ _ _ (Gives.here left url r payload valid answered taken) = taken.3
  Gives-IsWithinLimit _ _ _
        (Gives.redirected left url location r payload valid answered moved there rest) =
      Gives-IsWithinLimit left (urljoin r.url location) payload rest

check_digest-ok :
    (sha256 : Bytes → Text) (digest : Text) (given payload : Bytes)
    → check_digest sha256 digest given ≡ ok payload
    → (given ≡ payload) × ((digest ≡ []) ⊎ (sha256 payload ≡ digest))
check_digest-ok sha256 [] given payload h = (cc h, inl refl)
check_digest-ok sha256 (c ∷ digest) given payload h =
    let (matches, rest) = checked (not (sha256 given == c ∷ digest)) digest_mismatch _ h in
    let same : given ≡ payload = cc rest in
    let test : (sha256 given == c ∷ digest) ≡ true = ground arith in
    (same, inr (rw (← same) ((eq_iff (sha256 given) (c ∷ digest)).0 test)))

-- A payload that is returned is within the limit, has the digest, and is given by the address.
abbrev pub IsReturned :
    Web
    → (Text → Result FetchError UrlParts)
    → (Text → Text → Text)
    → (Bytes → Text)
    → Text
    → Text
    → Result FetchError Bytes
    → Type 0
IsReturned web urlsplit urljoin sha256 url expected (err e) = Unit
IsReturned web urlsplit urljoin sha256 url expected (ok payload) =
    IsWithinLimit payload
    × ((normalized expected ≡ []) ⊎ (sha256 payload ≡ normalized expected))
    × Gives web urlsplit urljoin max_redirects (strip url) payload

IsReturned-of :
    (web : Web) (urlsplit : Text → Result FetchError UrlParts) (urljoin : Text → Text → Text)
    (sha256 : Bytes → Text) (url expected : Text) (r : Result FetchError Bytes)
    → (fetch_remote_config web urlsplit urljoin sha256 url expected).1 ≡ r
    → IsReturned web urlsplit urljoin sha256 url expected r
unfolding fetch_remote_config
IsReturned-of web urlsplit urljoin sha256 url expected (err e) h = tt
IsReturned-of web urlsplit urljoin sha256 url expected (ok payload) h =
    let got_from = fetch_from web urlsplit urljoin max_redirects (strip url) in
    let (u, checks, fetched) =
      when_valid-ok (check_request urlsplit (strip url) expected)
        (got_from.0, got_from.1 >>= check_digest sha256 (normalized expected)) payload h in
    let (given, got, digested) =
      >>=-eq-ok got_from.1 (check_digest sha256 (normalized expected)) fetched in
    let (same, digest) = check_digest-ok sha256 (normalized expected) given payload digested in
    let way : Gives web urlsplit urljoin max_redirects (strip url) payload =
      fetch_from-Gives web urlsplit urljoin max_redirects (strip url) payload (rw same at got) in
    (Gives-IsWithinLimit web urlsplit urljoin max_redirects (strip url) payload way, digest, way)

-- However `fetch_remote_config` ends, it has asked at most six addresses, and each of them passed
-- `validate_config_url` before it was asked. A configuration that it returns is not empty and has at
-- most 1 MiB; if a digest is asked for, it is the configuration's; and the configuration is what the
-- chunks of a successful response hold, to which at most five redirects led from the given address.
pub fetch_remote_config-Gives :
    (web : Web) (urlsplit : Text → Result FetchError UrlParts) (urljoin : Text → Text → Text)
    (sha256 : Bytes → Text) (url expected : Text)
    → let (asked, r) = fetch_remote_config web urlsplit urljoin sha256 url expected in
      All (IsChecked web urlsplit urljoin) asked
      × (length asked ≤ 6)
      × IsReturned web urlsplit urljoin sha256 url expected r
unfolding fetch_remote_config
fetch_remote_config-Gives web urlsplit urljoin sha256 url expected =
    let fetched = fetch_from web urlsplit urljoin max_redirects (strip url) in
    let (each, few) =
      when_valid-log (AreChecked web urlsplit urljoin 6)
        (check_request urlsplit (strip url) expected)
        (fetched.0, fetched.1 >>= check_digest sha256 (normalized expected)) (tt, omega arith)
        (λ u checks. fetch_from-AreChecked web urlsplit urljoin max_redirects (strip url)) in
    (each, few, IsReturned-of web urlsplit urljoin sha256 url expected _ refl)
