-- ===== src/Router/Sse/Feed.antt =====
-- `feed`: what it leaves in the buffer, and that the way a stream is cut into chunks does not matter.
use mathlib.Core.List.{append_assoc}
use yeetllm.Common.{
  ◌-◌, ◌*◌, ◌≤◌, ◌≡◌, refl, sym, subst, ◌∙◌, arith, false, none, ◌++◌, ltb, length, length-append,
  Bool-cases, Option, inl, inr, contains, contains-append, nat_eq,
}
use yeetllm.Common.Text.{Bytes}
use yeetllm.Common.Json.{Json}
use yeetllm.Common.Text.Slices.{length-drop}
use yeetllm.Router.Sse.{normalize, cut, drain, feed, bounded}
use yeetllm.Router.Sse.Chunks.{normalize-plain, drain_fuel, drain_empty, drain-append, drain-IsLess}

module _ (loads : Bytes → Option Json) where
  bounded-le : (s : Bytes) → length (bounded loads s) ≤ 128 * 1024
  bounded-le s = elim (Bool-cases (ltb (128 * 1024) (length s))) [
    | inl over ↦ rw over (omega (arith, length-drop (length s - 64 * 1024) s))
    | inr under ↦ rw under (ground arith)
  ]

  -- After any chunk the buffer holds no whole event and at most 128 KiB: the loop has come to its end.
  pub feed-settled :
      (chunk buffer : Bytes)
      → (cut (feed loads chunk buffer).1 ≡ none) × (length (feed loads chunk buffer).1 ≤ 128 * 1024)
  unfolding feed
  feed-settled chunk buffer =
      let kept = bounded loads (normalize (buffer ++ chunk)) in
      (
        drain_empty loads (length kept) kept (omega arith),
        omega (
          arith,
          bounded-le (normalize (buffer ++ chunk)),
          (drain-IsLess loads (length kept) kept).0,
        ),
      )

  feed-plain :
      (chunk buffer : Bytes)
      → contains (buffer ++ chunk) 13 ≡ false
      → length (buffer ++ chunk) ≤ 128 * 1024
      → feed loads chunk buffer ≡ drain loads (length (buffer ++ chunk)) (buffer ++ chunk)
  unfolding feed
  feed-plain chunk buffer plain low =
      let small : ltb (128 * 1024) (length (buffer ++ chunk)) ≡ false = ground arith in
      rw (normalize-plain (buffer ++ chunk) plain, small) refl

  -- When the buffer and two chunks together hold no carriage return and at most 128 KiB, the two chunks
  -- fed one after the other give what their concatenation gives: the same identifiers in the same
  -- order, and the same rest in the buffer.
  pub feed-append :
      (first second buffer : Bytes)
      → contains ((buffer ++ first) ++ second) 13 ≡ false
      → length ((buffer ++ first) ++ second) ≤ 128 * 1024
      → feed loads (first ++ second) buffer ≡ (
        (feed loads first buffer).0 ++ (feed loads second (feed loads first buffer).1).0,
        (feed loads second (feed loads first buffer).1).1,
      )
  feed-append first second buffer plain low =
      let s = buffer ++ first in
      let plain_first : contains s 13 ≡ false = ground (arith, contains-append s second 13) in
      let plain_second : contains second 13 ≡ false = ground (arith, contains-append s second 13) in
      let low_first : length s ≤ 128 * 1024 = omega (arith, length-append s second) in
      let left = (drain loads (length s) s).1 in
      let (shorter, less) = drain-IsLess loads (length s) s in
      let plain_left : contains (left ++ second) 13 ≡ false =
        ground (arith, contains-append left second 13, less plain_first) in
      let low_left : length (left ++ second) ≤ length (s ++ second) =
        omega (arith, length-append s second, length-append left second) in
      let same : s ++ second ≡ buffer ++ (first ++ second) = append_assoc buffer first second in
      let whole : feed loads (first ++ second) buffer
          ≡ drain loads (length (s ++ second)) (s ++ second) =
        subst (λ (x : Bytes). feed loads (first ++ second) buffer ≡ drain loads (length x) x)
          (sym same) (feed-plain (first ++ second) buffer (rw same at plain) (rw same at low)) in
      let one : feed loads first buffer ≡ drain loads (length s) s =
        feed-plain first buffer plain_first low_first in
      let two : feed loads second left ≡ drain loads (length (s ++ second)) (left ++ second) =
        feed-plain second left plain_left (omega arith)
        ∙ drain_fuel loads (length (left ++ second)) (length (s ++ second)) (left ++ second)
            (omega arith) low_left in
      whole
      ∙ drain-append loads (length s) (length (s ++ second)) (length (s ++ second)) s second
          (omega arith) (omega arith) (omega arith)
      ∙ rw (one, two) refl
