-- ===== src/Config/Claims.antt =====
-- Loops that register keys in a dictionary and fail on a key that is there: what they accept.
use mathlib.Core.List.{append-nil, append_assoc}
use yeetllm.Common.{
  ◌≡◌, refl, ap, ◌∙◌, ◌↔◌, false, List, [], ◌∷◌, ◌++◌, arith, Eq, eq_iff, ◌==◌, contains,
  IsDistinct, contains-append, All, All-of_mem, Result, ok, ◌>>=◌, >>=-eq-ok,
}
use yeetllm.Common.Dict.{Dict, keys, insert, insert_new, keys-append}
use yeetllm.Common.Text.{Text}

module _ {ℓ} {K : Type ℓ} ⦃e : Eq K⦄ where
  -- None of the keys was seen before, nor stands twice.
  abbrev pub AreNew : List K → List K → Type 0
  AreNew seen [] = Unit
  AreNew seen (x ∷ xs) = (contains seen x ≡ false) × AreNew (seen ++ x ∷ []) xs

  pub AreNew-append :
      (seen xs ys : List K) → AreNew seen (xs ++ ys) ↔ (AreNew seen xs × AreNew (seen ++ xs) ys)
  AreNew-append seen [] ys = rw append-nil (λ h. (tt, h), λ h. h.1)
  AreNew-append seen (x ∷ xs) ys =
      let (to, from) = AreNew-append (seen ++ x ∷ []) xs ys in
      rw (← append_assoc seen (x ∷ []) xs)
        (λ h. ((h.0, (to h.1).0), (to h.1).1), λ h. (h.0.0, from (h.0.1, h.1)))

  contains-one : (x a : K) → contains (x ∷ []) a ≡ (x == a)
  unfolding contains
  contains-one x a = ground arith

  All-absent-concat :
      (seen : List K) (x : K) (ys : List K)
      → All (λ y. contains (seen ++ x ∷ []) y ≡ false) ys
        ↔ (All (λ y. contains seen y ≡ false) ys × (contains ys x ≡ false))
  unfolding contains
  All-absent-concat seen x [] = ground arith
  All-absent-concat seen x (y ∷ ys) = ground (
    arith,
    All-absent-concat seen x ys,
    contains-append seen (x ∷ []) y,
    contains-one x y,
    eq_iff x y,
    eq_iff y x,
  )

  -- In terms of the elements alone.
  pub AreNew-iff :
      (seen xs : List K) → AreNew seen xs ↔ (All (λ x. contains seen x ≡ false) xs × IsDistinct xs)
  AreNew-iff seen [] = ground arith
  AreNew-iff seen (x ∷ xs) =
      let (to, from) = AreNew-iff (seen ++ x ∷ []) xs in
      let (apart, join) = All-absent-concat seen x xs in
      (
        λ h.
            let (absent, distinct) = to h.1 in
            ((h.0, (apart absent).0), ((apart absent).1, distinct)),
        λ h. (h.0.0, from (join (h.0.1, h.1.0), h.1.1)),
      )

  pub AreNew-nil_iff : (xs : List K) → AreNew [] xs ↔ IsDistinct xs
  unfolding contains
  AreNew-nil_iff xs =
      let (to, from) = AreNew-iff [] xs in
      (λ h. (to h).1, λ h. from (All-of_mem _ xs (λ a m. refl), h))

  -- A new key goes to the end of the keys.
  pub keys-insert_new :
      (x : K) (v : Text) (d : Dict K Text)
      → contains (keys d) x ≡ false
      → keys (insert x v d) ≡ keys d ++ x ∷ []
  keys-insert_new x v d h = ap keys (insert_new x v d h) ∙ keys-append d ((x, v) ∷ [])

module _ {ℓ μ} {K : Type ℓ} {E : Type μ} ⦃e : Eq K⦄ where
  -- A loop that registers `xs` after `seen` returns exactly when they are new, with all keys.
  pub record Accepts (r : Result E (Dict K Text)) (seen xs : List K) : Type (ℓ ⊔ μ) where
    pub sound : (d : Dict K Text) → r ≡ ok d → AreNew seen xs × (keys d ≡ seen ++ xs)
    pub complete : AreNew seen xs → (d : Dict K Text) × (r ≡ ok d)

  pub Accepts-bind :
      (r : Result E (Dict K Text)) (f : Dict K Text → Result E (Dict K Text)) (seen xs ys : List K)
      → Accepts r seen xs
      → ((d : Dict K Text) → keys d ≡ seen ++ xs → Accepts (f d) (seen ++ xs) ys)
      → Accepts (r >>= f) seen (xs ++ ys)
  Accepts-bind r f seen xs ys first next = record {
    sound = λ d h.
        let (d', p, q) = >>=-eq-ok r f h in
        let (new, k) = first.sound d' p in
        let (new', k') = (next d' k).sound d q in
        ((AreNew-append seen xs ys).1 (new, new'), k' ∙ append_assoc seen xs ys);
    complete = λ h.
        let (new, new') = (AreNew-append seen xs ys).0 h in
        let (d', p) = first.complete new in
        let (d, q) = (next d' (first.sound d' p).1).complete new' in (d, rw p q);
  }
