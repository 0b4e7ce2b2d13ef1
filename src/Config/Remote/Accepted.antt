-- ===== src/Config/Remote/Accepted.antt =====
-- What a response that `fetch_remote_config` takes has passed.
use yeetllm.Common.{
  ◌≤◌, ◌<◌, ◌≡◌, refl, sym, ◌∙◌, arith, Bool, true, false, ◌||◌, Option, none, some, List, [], ◌∷◌,
  ◌++◌, leb, ltb, text_eq, length, Result, ok, ◌>>◌, >>-eq-ok, raise_if,
}
use yeetllm.Common.Text.{Bytes}
use mathlib.Core.List.{append_assoc, append-nil}
use yeetllm.Common.Text.Slices.{concat}
use yeetllm.Config.Remote.{
  FetchError, too_large, http_status, Response, max_bytes, finish, collect, accept,
}

raise_if-ok : (b : Bool) (e : FetchError) (u : Unit {0}) → raise_if b e ≡ ok u → b ≡ false
raise_if-ok true e u h = cc h
raise_if-ok false e u h = refl

-- A check that did not raise, and what followed it.
pub checked {ℓ} :
    {A : Type ℓ} (b : Bool) (e : FetchError) (r : Result FetchError A) {a : A}
    → (raise_if b e >> r) ≡ ok a
    → (b ≡ false) × (r ≡ ok a)
checked b e r h =
    let ((u, passed), rest) = >>-eq-ok (raise_if b e) r h in (raise_if-ok b e u passed, rest)

-- A payload that is not empty and within the limit.
abbrev pub IsWithinLimit : Bytes → Type 0
IsWithinLimit payload = (1 ≤ length payload) × (length payload ≤ max_bytes)

finish-ok :
    (acc payload : Bytes) (interrupted : Option FetchError)
    → finish acc interrupted ≡ ok payload
    → (payload ≡ acc) × (1 ≤ length payload)
finish-ok acc payload (some e) h = absurd (cc h)
finish-ok [] payload none h = absurd (cc h)
finish-ok (c ∷ acc) payload none h =
    let same : c ∷ acc ≡ payload = cc h in (sym same, rw (← same) (omega arith))

collect-ok :
    (acc : Bytes) (chunks : List Bytes) (interrupted : Option FetchError) (payload : Bytes)
    → length acc ≤ max_bytes
    → collect acc chunks interrupted ≡ ok payload
    → (payload ≡ acc ++ concat chunks) × IsWithinLimit payload
unfolding collect
collect-ok acc [] interrupted payload short h =
    let (same, some_bytes) = finish-ok acc payload interrupted h in
    (same ∙ sym (append-nil acc), (some_bytes, rw same short))
collect-ok acc (chunk ∷ chunks) interrupted payload short h =
    let (fits, rest) = checked (ltb max_bytes (length (acc ++ chunk))) too_large _ h in
    let (same, within) = collect-ok (acc ++ chunk) chunks interrupted payload (ground arith) rest in
    (same ∙ append_assoc acc chunk (concat chunks), within)

-- A response that is taken: its status is a success, and the payload its chunks.
pub accept-ok :
    (r : Response) (payload : Bytes)
    → accept r ≡ ok payload
    → (200 ≤ r.status) × (r.status < 300) × (payload ≡ concat r.chunks) × IsWithinLimit payload
unfolding accept
accept-ok r payload h =
    let ((u, passed), read) = >>-eq-ok _ (collect [] r.chunks r.interrupted) h in
    let (success, announced) =
      checked (ltb r.status 200 || leb 300 r.status) (http_status r.status) _ passed in
    let (same, within) = collect-ok [] r.chunks r.interrupted payload (omega arith) read in
    (ground arith, ground arith, same, within)
