-- ===== src/Prelude/Elems.antt =====
-- The elements of lists, and predicates on all of them.
use Prim.Native.Nat.{ℕ, zero, suc}
use mathlib.Core.Path.{◌≡◌, refl, ap, ◌∙◌}
use mathlib.Core.Logic.{◌⊎◌, inl, inr}
use mathlib.Core.Bool.{Bool, true}
use mathlib.Core.List.{List, [], ◌∷◌, ◌++◌, map, reverse, reverse_aux, reverse-cons}
use dependency_guardian.Prelude.Tests.{Bool-cases}
use dependency_guardian.Prelude.Lists.{take, filter}

-- Predicates by recursion, which the tactics take apart.
module _ {ℓ κ} {A : Type ℓ} (P : A → Type κ) where
  abbrev pub All : List A → Type κ
  All [] = Unit
  All (x ∷ xs) = P x × All xs

  pub All-append : (xs ys : List A) → All xs → All ys → All (xs ++ ys)
  All-append [] ys h k = k
  All-append (x ∷ xs) ys (p, h) k = (p, All-append xs ys h k)

abbrev pub Elem : {A : Type 0} → A → List A → Type 0
Elem a [] = ⊥
Elem a (x ∷ xs) = (a ≡ x) ⊎ Elem a xs

module _ {A : Type 0} where
  pub Elem-append_left : (a : A) (xs ys : List A) → Elem a xs → Elem a (xs ++ ys)
  Elem-append_left a [] ys h = absurd h
  Elem-append_left a (x ∷ xs) ys (inl e) = inl e
  Elem-append_left a (x ∷ xs) ys (inr h) = inr (Elem-append_left a xs ys h)

  pub Elem-append_right : (a : A) (xs ys : List A) → Elem a ys → Elem a (xs ++ ys)
  Elem-append_right a [] ys h = h
  Elem-append_right a (x ∷ xs) ys h = inr (Elem-append_right a xs ys h)

  -- An element of the filtered list is an element of the list that passes the test.
  pub Elem-filter :
      (p : A → Bool) (a : A) (xs : List A) → Elem a (filter p xs) → Elem a xs × (p a ≡ true)
  Elem-filter p a [] h = absurd h
  Elem-filter p a (x ∷ xs) h = elim (Bool-cases (p x)) [
    | inl pass ↦ kept pass (rw pass at h) (Elem-filter p a xs)
    | inr drop ↦ let (m, t) = Elem-filter p a xs (rw drop at h) in (inr m, t)
  ]
    where
      kept :
          p x ≡ true
          → Elem a (x ∷ filter p xs)
          → (Elem a (filter p xs) → Elem a xs × (p a ≡ true))
          → Elem a (x ∷ xs) × (p a ≡ true)
      kept pass (inl e) ih = (inl e, ap p e ∙ pass)
      kept pass (inr m) ih = let (m', t) = ih m in (inr m', t)

  pub Elem-take : (n : ℕ) (a : A) (xs : List A) → Elem a (take n xs) → Elem a xs
  Elem-take zero a xs h = absurd h
  Elem-take (suc n) a [] h = absurd h
  Elem-take (suc n) a (x ∷ xs) (inl e) = inl e
  Elem-take (suc n) a (x ∷ xs) (inr m) = inr (Elem-take n a xs m)

  pub Elem-append : (a : A) (xs ys : List A) → Elem a (xs ++ ys) → Elem a xs ⊎ Elem a ys
  Elem-append a [] ys h = inr h
  Elem-append a (x ∷ xs) ys (inl e) = inl (inl e)
  Elem-append a (x ∷ xs) ys (inr m) = elim (Elem-append a xs ys m) [
    | inl l ↦ inl (inr l)
    | inr r ↦ inr r
  ]

  pub Elem-reverse : (a : A) (xs : List A) → Elem a (reverse xs) → Elem a xs
  Elem-reverse a [] h = h
  Elem-reverse a (x ∷ xs) h = elim (Elem-append a (reverse xs) (x ∷ []) (rw reverse-cons at h)) [
    | inl l ↦ inr (Elem-reverse a xs l)
    | inr r ↦ elim r [ inl e ↦ inl e | inr none_left ↦ absurd none_left ]
  ]

  -- An element that passes the test is kept.
  pub Elem-filter_of :
      (p : A → Bool) (a : A) (xs : List A) → Elem a xs → p a ≡ true → Elem a (filter p xs)
  Elem-filter_of p a [] m t = m
  Elem-filter_of p a (x ∷ xs) (inl e) t = rw (← e, t) (inl refl)
  Elem-filter_of p a (x ∷ xs) (inr m) t = elim (Bool-cases (p x)) [
    | inl pass ↦ rw pass (inr (Elem-filter_of p a xs m t))
    | inr out ↦ rw out (Elem-filter_of p a xs m t)
  ]

module _ {A : Type 0} where
  pub Elem-reverse_aux_to :
      (v : A) (xs ys : List A) → Elem v xs ⊎ Elem v ys → Elem v (reverse_aux xs ys)
  Elem-reverse_aux_to v [] ys (inl m) = absurd m
  Elem-reverse_aux_to v [] ys (inr m) = m
  Elem-reverse_aux_to v (x ∷ xs) ys (inl (inl e)) = Elem-reverse_aux_to v xs (x ∷ ys) (inr (inl e))
  Elem-reverse_aux_to v (x ∷ xs) ys (inl (inr m)) = Elem-reverse_aux_to v xs (x ∷ ys) (inl m)
  Elem-reverse_aux_to v (x ∷ xs) ys (inr m) = Elem-reverse_aux_to v xs (x ∷ ys) (inr (inr m))

  pub Elem-reverse_aux_of :
      (v : A) (xs ys : List A) → Elem v (reverse_aux xs ys) → Elem v xs ⊎ Elem v ys
  Elem-reverse_aux_of v [] ys m = inr m
  Elem-reverse_aux_of v (x ∷ xs) ys m = elim (Elem-reverse_aux_of v xs (x ∷ ys) m) [
    | inl l ↦ inl (inr l)
    | inr (inl e) ↦ inl (inl e)
    | inr (inr r) ↦ inr r
  ]

module _ {A B : Type 0} (f : A → B) where
  pub Elem-map_of : (a : A) (xs : List A) → Elem a xs → Elem (f a) (map f xs)
  Elem-map_of a [] m = absurd m
  Elem-map_of a (x ∷ xs) (inl e) = inl (ap f e)
  Elem-map_of a (x ∷ xs) (inr m) = inr (Elem-map_of a xs m)

  pub Elem-map : (b : B) (xs : List A) → Elem b (map f xs) → (a : A) × Elem a xs × (b ≡ f a)
  Elem-map b [] m = absurd m
  Elem-map b (x ∷ xs) (inl e) = (x, inl refl, e)
  Elem-map b (x ∷ xs) (inr m) = let (a, m', e) = Elem-map b xs m in (a, inr m', e)
