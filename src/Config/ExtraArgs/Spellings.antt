-- ===== src/Config/ExtraArgs/Spellings.antt =====
-- No spelling of a controlled option passes `validate_extra_args`.
use mathlib.Core.List.{Memᴰ, append-nil}
use mathlib.Core.List.Memᴰ.{head, tail}
use yeetllm.Common.{
  ℕ, ◌≡◌, refl, ◌⊎◌, inl, inr, Bool, true, not, ◌&&◌, ◌||◌, List, [], ◌∷◌, ◌++◌, arith, all, keep,
  any_of_mem, keep_of_mem, all-true_iff, All-mem, ◌==◌, nat_eq, ok, >>-eq-ok, >>-eq-ok, raise_if,
  ◌≢◌, ◌>>◌,
}
use yeetllm.Common.Text.{Text, codes, starts_with, before, replace_code}
use yeetllm.Common.Text.Cuts.{
  all-starts_with, starts_with-append, starts_with_trans, before-append, replace_code-append,
  rstrip_by_none,
}
use yeetllm.Config.Types.{Error, controlled_extra_arg}
use yeetllm.Config.ExtraArgs.{
  blocked_extra_args, is_long, normalize, option_root, is_blocked_long, is_blocked_short,
  validate_extra_arg, validate_extra_args,
}

abbrev is_plain : ℕ → Bool
is_plain c = not (c == b'=' || c == b'.' || c == b'+')

blocked_plain : all (all is_plain) blocked_extra_args ≡ true
unfolding all
blocked_plain = refl

plain_of_mem : {name : Text} → Memᴰ name blocked_extra_args → all is_plain name ≡ true
plain_of_mem m =
    All-mem (λ n. all is_plain n ≡ true) blocked_extra_args
      ((all-true_iff (all is_plain) blocked_extra_args).0 blocked_plain) m

-- What may follow the name of an option: nothing, a value, or a dotted path.
abbrev pub IsTail : Text → Type 0
IsTail t = (t ≡ []) ⊎ (((v : Text) × (t ≡ b'=' ∷ v)) ⊎ ((v : Text) × (t ≡ b'.' ∷ v)))

no_equals :
    (s : Text)
    → all is_plain (replace_code b'_' b'-' s) ≡ true
    → all (λ c. not (c == b'=')) s ≡ true
unfolding all replace_code
no_equals [] h = refl
no_equals (c ∷ s) h = ground (arith, no_equals s)

no_dot : (s : Text) → all is_plain s ≡ true → all (λ c. not (c == b'.')) s ≡ true
unfolding all
no_dot [] h = refl
no_dot (c ∷ s) h = ground (arith, no_dot s)

no_plus : (s : Text) → all is_plain s ≡ true → all (λ c. not (c == b'+')) s ≡ true
unfolding all
no_plus [] h = refl
no_plus (c ∷ s) h = ground (arith, no_plus s)

is_long_replace : (s : Text) → is_long s ≡ true → is_long (replace_code b'_' b'-' s) ≡ true
unfolding starts_with replace_code
is_long_replace [] h = cc
is_long_replace (c ∷ []) h = ground arith
is_long_replace (c ∷ d ∷ s) h = ground arith

tail_dropped : (t : Text) → IsTail t → before b'.' (replace_code b'_' b'-' (before b'=' t)) ≡ []
unfolding before replace_code
tail_dropped t (inl e) = rw e
tail_dropped t (inr (inl (v, e))) = rw e
tail_dropped t (inr (inr (v, e))) = rw e

-- However a controlled option is spelled, the code finds its name.
root_found :
    (s t : Text)
    → is_long s ≡ true
    → all is_plain (replace_code b'_' b'-' s) ≡ true
    → IsTail t
    → option_root (normalize (before b'=' (s ++ t))) ≡ replace_code b'_' b'-' s
unfolding option_root normalize
root_found s t long plain end =
    rw
      (
        before-append b'=' s t (no_equals s plain),
        starts_with-append s (codes "--") (before b'=' t) long,
        replace_code-append b'_' b'-' s (before b'=' t),
        before-append b'.' (replace_code b'_' b'-' s) _ (no_dot _ plain),
        tail_dropped t end,
        append-nil,
      )
      (rstrip_by_none _ _ (no_plus _ plain))

middle_true : (a l b c : Bool) → l ≡ true → b ≡ true → (a || l && b || c) ≡ true
middle_true a l b c p q = ground arith

blocked_of_prefix :
    (name root n : Text)
    → Memᴰ name blocked_extra_args
    → starts_with name root ≡ true
    → is_long root ≡ true
    → is_blocked_long root n ≡ true
unfolding is_blocked_long
blocked_of_prefix name root n m p long = middle_true _ _ _ _ long (
    any_of_mem (λ c. starts_with c root) (keep is_long blocked_extra_args)
      (keep_of_mem is_long blocked_extra_args m (starts_with_trans name root (codes "--") p long))
      p)

not_ok : (a b c : Bool) (e f : Error) → b ≡ true → (do raise_if a e; raise_if (b || c) f) ≢ ok tt
not_ok a b c e f h = ground arith

one_refused :
    (name s t : Text)
    → Memᴰ name blocked_extra_args
    → starts_with name (replace_code b'_' b'-' s) ≡ true
    → is_long s ≡ true
    → IsTail t
    → validate_extra_arg (s ++ t) ≢ ok tt
unfolding validate_extra_arg
one_refused name s t m p long end =
    let found : option_root (normalize (before b'=' (s ++ t))) ≡ replace_code b'_' b'-' s =
      root_found s t long (all-starts_with is_plain name _ p (plain_of_mem m)) end in
    let flag = before b'=' (s ++ t) in
    not_ok _ (is_blocked_long (option_root (normalize flag)) (normalize flag))
      (is_blocked_short (option_root (normalize flag))) _ (controlled_extra_arg flag)
      (blocked_of_prefix name _ (normalize flag) m (rw found p) (rw found (is_long_replace s long)))

-- An argument that starts with two dashes and spells a controlled option never passes: not in
-- full, not abbreviated, not with underscores for dashes, and not followed by a value or by a
-- dotted path.
pub controlled_option_refused :
    (name s t : Text) (values : List Text)
    → Memᴰ name blocked_extra_args
    → starts_with name (replace_code b'_' b'-' s) ≡ true
    → is_long s ≡ true
    → IsTail t
    → Memᴰ (s ++ t) values
    → validate_extra_args values ≢ ok tt
unfolding validate_extra_args
controlled_option_refused name s t [] m p long end l h = elim l [ ]
controlled_option_refused name s t (v ∷ vs) m p long end (head e) h =
    let ((u, first), _) = >>-eq-ok (validate_extra_arg v) (validate_extra_args vs) h in
    one_refused name s t m p long end (rw e first)
controlled_option_refused name s t (v ∷ vs) m p long end (tail l) h =
    let (_, rest) = >>-eq-ok (validate_extra_arg v) (validate_extra_args vs) h in
    controlled_option_refused name s t vs m p long end l rest
