-- ===== src/Processes/Logs/Framing.antt =====
-- The log lines of a process lose none of its output.
use mathlib.Core.List.{append_assoc, append-nil}
use yeetllm.Common.{
  ℕ, zero, suc, ◌≤◌, ◌<◌, ◌≡◌, refl, sym, ap, ◌∙◌, inl, inr, arith, true, false, not, none, some,
  List, [], ◌∷◌, ◌++◌, ltb, nat_eq, length, keep, keep-append, length-keep-le, Bool-cases,
  Option-cases,
}
use yeetllm.Common.Text.{Bytes}
use yeetllm.Common.Text.Slices.{concat, drop, take-append-drop, length-drop}
use yeetllm.Processes.Logs.{
  is_delimiter, first_line, after_delimiter, unless_empty, complete_lines, chunk_size, overlong,
  read_chunk, read,
}

concat-append : (xs ys : List Bytes) → concat (xs ++ ys) ≡ concat xs ++ concat ys
concat-append [] ys = refl
concat-append (x ∷ xs) ys = simp (concat-append xs ys, append_assoc)

concat-unless_empty : (s : Bytes) → concat (unless_empty s) ≡ s
concat-unless_empty [] = refl
concat-unless_empty (c ∷ s) = append-nil (c ∷ s)

-- The bytes that are not delimiters.
abbrev pub text_of : Bytes → Bytes
text_of = keep (λ c. not (is_delimiter c))

text_of-append : (s t : Bytes) → text_of (s ++ t) ≡ text_of s ++ text_of t
text_of-append = keep-append (λ c. not (is_delimiter c))

-- No delimiter is in the buffer.
abbrev pub IsPlain : Bytes → Type 0
IsPlain s = text_of s ≡ s

module _ (c : ℕ) (s : Bytes) where
  first_here : is_delimiter c ≡ true → first_line (c ∷ s) ≡ some ([], c, s)
  unfolding first_line
  first_here h = rw h refl

  first_later :
      (line rest : Bytes) (delimiter : ℕ)
      → is_delimiter c ≡ false
      → first_line s ≡ some (line, delimiter, rest)
      → first_line (c ∷ s) ≡ some (c ∷ line, delimiter, rest)
  unfolding first_line
  first_later line rest delimiter h e = rw (h, e, first_line) refl

  first_never : is_delimiter c ≡ false → first_line s ≡ none → first_line (c ∷ s) ≡ none
  unfolding first_line
  first_never h e = rw (h, e, first_line) refl

  text_of_delimiter : is_delimiter c ≡ true → text_of (c ∷ s) ≡ text_of s
  unfolding keep
  text_of_delimiter h = rw h refl

  text_of_plain : is_delimiter c ≡ false → text_of (c ∷ s) ≡ c ∷ text_of s
  unfolding keep
  text_of_plain h = rw h refl

first_line_nil : first_line [] ≡ none
unfolding first_line
first_line_nil = refl

first_line-none : (s : Bytes) → first_line s ≡ none → IsPlain s
unfolding keep
first_line-none [] h = refl
first_line-none (c ∷ s) h = elim (Bool-cases (is_delimiter c)) [
  | inl here ↦ absurd (let e = sym (first_here c s here) ∙ h in cc e)
  | inr later ↦ elim (Option-cases (first_line s)) [
    | inl never ↦ text_of_plain c s later ∙ ap (λ (t : Bytes). c ∷ t) (first_line-none s never)
    | inr ((line, d, rest), found) ↦
        absurd (let e = sym (first_later c s line rest d later found) ∙ h in cc e)
  ]
]

first_line-some :
    (s line rest : Bytes) (delimiter : ℕ)
    → first_line s ≡ some (line, delimiter, rest)
    → (text_of s ≡ line ++ text_of rest) × (length rest < length s)
first_line-some [] line rest delimiter h = absurd (let e = sym first_line_nil ∙ h in cc e)
first_line-some (c ∷ s) line rest delimiter h = elim (Bool-cases (is_delimiter c)) [
  | inl here ↦
      let e : some ([], c, s) ≡ some (line, delimiter, rest) = sym (first_here c s here) ∙ h in
      let l : [] ≡ line = cc e in
      let r : s ≡ rest = cc e in
      (text_of_delimiter c s here ∙ rw (← l, r) refl, omega (arith, ap length r))
  | inr later ↦ elim (Option-cases (first_line s)) [
    | inl never ↦ absurd (let e = sym (first_never c s later never) ∙ h in cc e)
    | inr ((line', d, rest'), found) ↦
        let e : some (c ∷ line', d, rest') ≡ some (line, delimiter, rest) =
          sym (first_later c s line' rest' d later found) ∙ h in
        let l : c ∷ line' ≡ line = cc e in
        let r : rest' ≡ rest = cc e in
        let (text, shorter) = first_line-some s line' rest' d found in
        (
          text_of_plain c s later ∙ ap (λ (t : Bytes). c ∷ t) text ∙ rw (← l, r) refl,
          omega (arith, ap length r, shorter),
        )
  ]
]

text_of-after_delimiter :
    (delimiter : ℕ) (s : Bytes)
    → (text_of (after_delimiter delimiter s) ≡ text_of s)
      × (length (after_delimiter delimiter s) ≤ length s)
unfolding keep
text_of-after_delimiter delimiter [] = (refl, omega arith)
text_of-after_delimiter delimiter (c ∷ s) = ground arith

-- What one line and its delimiter take from the buffer.
abbrev Keeps : List Bytes × Bytes → Bytes → Type 0
Keeps out s = (concat out.0 ++ out.1 ≡ text_of s) × IsPlain out.1

complete_lines_done :
    (fuel : ℕ) (s : Bytes) → first_line s ≡ none → complete_lines (suc fuel) s ≡ ([], s)
unfolding complete_lines
complete_lines_done fuel s h = rw (h, complete_lines) refl

complete_lines_next :
    (fuel : ℕ) (s line rest : Bytes) (d : ℕ)
    → first_line s ≡ some (line, d, rest)
    → complete_lines (suc fuel) s ≡ (
      unless_empty line ++ (complete_lines fuel (after_delimiter d rest)).0,
      (complete_lines fuel (after_delimiter d rest)).1,
    )
unfolding complete_lines
complete_lines_next fuel s line rest d h = rw (h, complete_lines) refl

complete_lines_nil : Keeps (complete_lines zero []) []
unfolding complete_lines keep
complete_lines_nil = (refl, refl)

complete_lines-Keeps : (fuel : ℕ) (s : Bytes) → length s ≤ fuel → Keeps (complete_lines fuel s) s
complete_lines-Keeps zero [] h = complete_lines_nil
complete_lines-Keeps zero (c ∷ s) h = absurd (omega arith)
complete_lines-Keeps (suc fuel) s h = elim (Option-cases (first_line s)) [
  | inl plain ↦
      rw (complete_lines_done fuel s plain) (sym (first_line-none s plain), first_line-none s plain)
  | inr ((line, d, rest), found) ↦
      let (text, shorter) = first_line-some s line rest d found in
      let (same, short) = text_of-after_delimiter d rest in
      let (later, plain) = complete_lines-Keeps fuel (after_delimiter d rest) (omega arith) in
      rw (complete_lines_next fuel s line rest d found)
        (simp (concat-append, concat-unless_empty, append_assoc, later, same, text), plain)
]

-- What the lines and the rest of the buffer hold, after the buffer is cut where it is too long.
overlong-concat : (fuel : ℕ) (s : Bytes) → concat (overlong fuel s).0 ++ (overlong fuel s).1 ≡ s
unfolding overlong
overlong-concat zero s = refl
overlong-concat (suc fuel) s = elim (Bool-cases (ltb chunk_size (length s))) [
  | inl long ↦
      let rest = overlong-concat fuel (drop chunk_size s) in
      rw long (simp (append_assoc, rest, take-append-drop))
  | inr short ↦ rw short refl
]

overlong-le : (fuel : ℕ) (s : Bytes) → length s ≤ fuel → length (overlong fuel s).1 ≤ chunk_size
unfolding overlong
overlong-le zero s h = omega arith
overlong-le (suc fuel) s h = elim (Bool-cases (ltb chunk_size (length s))) [
  | inl long ↦
      rw long (overlong-le fuel (drop chunk_size s) (ground (arith, length-drop chunk_size s)))
  | inr short ↦ rw short (ground arith)
]

IsPlain-append : (s t : Bytes) → IsPlain (s ++ t) → IsPlain t
IsPlain-append [] t h = h
IsPlain-append (c ∷ s) t h = elim (Bool-cases (is_delimiter c)) [
  | inl here ↦ absurd (
      omega (
        arith,
        length-keep-le (λ b. not (is_delimiter b)) (s ++ t),
        ap length (sym (text_of_delimiter c (s ++ t) here) ∙ h),
      ))
  | inr plain ↦
      let e : c ∷ text_of (s ++ t) ≡ c ∷ (s ++ t) = sym (text_of_plain c (s ++ t) plain) ∙ h in
      IsPlain-append s t (cc e)
]

-- One chunk: the lines and the rest are the buffer with the chunk's bytes, and the rest is short.
abbrev pub HasRead : List Bytes × Bytes → Bytes → Bytes → Type 0
HasRead out pending chunk =
    (concat out.0 ++ out.1 ≡ pending ++ text_of chunk) × IsPlain out.1 × (length out.1 ≤ chunk_size)

-- What a chunk adds to the buffer, on a buffer without delimiters: all bytes of the two but the
-- delimiters are in the lines that are logged, in order, or still in the buffer, which holds no
-- delimiter and at most 64 KiB.
pub read_chunk-HasRead :
    (pending chunk : Bytes) → IsPlain pending → HasRead (read_chunk pending chunk) pending chunk
unfolding read_chunk
read_chunk-HasRead pending chunk plain =
    let whole = pending ++ chunk in
    let out = complete_lines (length whole) whole in
    let (kept, free) = complete_lines-Keeps (length whole) whole (omega arith) in
    let cuts = overlong-concat (length out.1) out.1 in
    let parts : concat (overlong (length out.1) out.1).0 ++ (overlong (length out.1) out.1).1
        ≡ out.1 =
      cuts in
    (
      simp (concat-append, append_assoc, cuts)
          (kept ∙ text_of-append pending chunk ∙ rw plain refl),
      IsPlain-append (concat (overlong (length out.1) out.1).0) (overlong (length out.1) out.1).1
          (rw cuts free),
      overlong-le (length out.1) out.1 (omega arith),
    )

read_done : (pending : Bytes) → read pending [] ≡ unless_empty pending
unfolding read
read_done pending = refl

read_next :
    (pending chunk : Bytes) (chunks : List Bytes)
    → read pending (chunk ∷ chunks)
      ≡ (read_chunk pending chunk).0 ++ read (read_chunk pending chunk).1 chunks
unfolding read
read_next pending chunk chunks = refl

text_of_nil : text_of [] ≡ []
unfolding keep
text_of_nil = refl

read-concat_from :
    (pending : Bytes) (chunks : List Bytes)
    → IsPlain pending
    → concat (read pending chunks) ≡ pending ++ text_of (concat chunks)
read-concat_from pending [] plain =
    rw (read_done pending, concat-unless_empty pending, text_of_nil) (sym (append-nil pending))
read-concat_from pending (chunk ∷ chunks) plain =
    let (kept, free, short) = read_chunk-HasRead pending chunk plain in
    let out = read_chunk pending chunk in
    let rest = read-concat_from out.1 chunks free in
    ap concat (read_next pending chunk chunks)
    ∙ concat-append out.0 (read out.1 chunks)
    ∙ ap (λ (t : Bytes). concat out.0 ++ t) rest
    ∙ sym (append_assoc (concat out.0) out.1 (text_of (concat chunks)))
    ∙ ap (λ (t : Bytes). t ++ text_of (concat chunks)) kept
    ∙ append_assoc pending (text_of chunk) (text_of (concat chunks))
    ∙ ap (λ (t : Bytes). pending ++ t) (sym (text_of-append chunk (concat chunks)))

-- However the output of a process is cut into chunks, its log lines hold exactly the bytes of the
-- output that are not line ends, in order.
pub read-concat : (chunks : List Bytes) → concat (read [] chunks) ≡ text_of (concat chunks)
unfolding keep
read-concat chunks = read-concat_from [] chunks refl
