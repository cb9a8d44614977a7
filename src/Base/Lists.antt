-- ===== src/Base/Lists.antt =====
-- Lists over the native numbers, with Boolean tests, and the predicates that proofs state of them.
use Prim.Native.Nat.{ℕ, zero, suc, ◌+◌, ◌≤◌, min}
use mathlib.Core.Path.{◌≡◌, refl, sym, ◌∙◌}
use mathlib.Core.Logic.{◌⊎◌, inl, inr}
use mathlib.Core.Bool.{Bool, true, false, ◌&&◌, ◌||◌}
use mathlib.Core.Option.{Option, none, some}
use mathlib.Core.List.{List, [], ◌∷◌, ◌++◌}
use native.Mathlib.Omega.{arith}
use nk.Base.Tests.{if◌then◌else◌, Bool-cases}

module _ {ℓ} {A : Type ℓ} where
  abbrev pub length : List A → ℕ
  length [] = 0
  length (x ∷ xs) = suc (length xs)

  abbrev pub take : ℕ → List A → List A
  take zero xs = []
  take (suc n) [] = []
  take (suc n) (x ∷ xs) = x ∷ take n xs

  abbrev pub drop : ℕ → List A → List A
  drop zero xs = xs
  drop (suc n) [] = []
  drop (suc n) (x ∷ xs) = drop n xs

  abbrev pub any : (A → Bool) → List A → Bool
  any p [] = false
  any p (x ∷ xs) = p x || any p xs

  abbrev pub all : (A → Bool) → List A → Bool
  all p [] = true
  all p (x ∷ xs) = p x && all p xs

  abbrev pub keep : (A → Bool) → List A → List A
  keep p [] = []
  keep p (x ∷ xs) = let rest = keep p xs in if p x then x ∷ rest else rest

  abbrev pub find? : (A → Bool) → List A → Option A
  find? p [] = none
  find? p (x ∷ xs) = if p x then some x else find? p xs

  pub length-append : (xs ys : List A) → length (xs ++ ys) ≡ length xs + length ys
  length-append [] ys = omega arith
  length-append (x ∷ xs) ys = omega (arith, length-append xs ys)

  pub length-take : (n : ℕ) (xs : List A) → length (take n xs) ≡ min n (length xs)
  length-take zero xs = omega arith
  length-take (suc n) [] = omega arith
  length-take (suc n) (x ∷ xs) = omega (arith, length-take n xs)

  pub take-append-drop : (n : ℕ) (xs : List A) → take n xs ++ drop n xs ≡ xs
  take-append-drop zero xs = refl
  take-append-drop (suc n) [] = refl
  take-append-drop (suc n) (x ∷ xs) = λ i. x ∷ take-append-drop n xs i

module _ {A : Type 0} where
  abbrev pub Member : A → List A → Type 0
  Member a [] = ⊥
  Member a (x ∷ xs) = (a ≡ x) ⊎ Member a xs

  pub Member-append_left : (a : A) (xs ys : List A) → Member a xs → Member a (xs ++ ys)
  Member-append_left a (x ∷ xs) ys (inl e) = inl e
  Member-append_left a (x ∷ xs) ys (inr m) = inr (Member-append_left a xs ys m)
  Member-append_left a [] ys m = elim m [ ]

  pub Member-append_right : (a : A) (xs ys : List A) → Member a ys → Member a (xs ++ ys)
  Member-append_right a [] ys m = m
  Member-append_right a (x ∷ xs) ys m = inr (Member-append_right a xs ys m)

  pub Member-append_cases :
      (a : A) (xs ys : List A) → Member a (xs ++ ys) → Member a xs ⊎ Member a ys
  Member-append_cases a [] ys m = inr m
  Member-append_cases a (x ∷ xs) ys (inl e) = inl (inl e)
  Member-append_cases a (x ∷ xs) ys (inr m) = elim (Member-append_cases a xs ys m) [
    | inl l ↦ inl (inr l)
    | inr r ↦ inr r
  ]

  -- What `keep` keeps: the members that pass the test.
  pub Member-keep :
      (p : A → Bool) (a : A) (xs : List A) → Member a xs → p a ≡ true → Member a (keep p xs)
  Member-keep p a [] m h = elim m [ ]
  Member-keep p a (x ∷ xs) (inl e) h = ground (arith, e)
  Member-keep p a (x ∷ xs) (inr m) h = ground (arith, Member-keep p a xs m h)

  keep_cases :
      (b : Bool) (p : A → Bool) (a x : A) (xs : List A)
      → p x ≡ b
      → Member a (if b then x ∷ keep p xs else keep p xs)
      → ((a ≡ x) × (p a ≡ true)) ⊎ Member a (keep p xs)
  keep_cases true p a x xs h (inl e) = inl (e, rw e h)
  keep_cases true p a x xs h (inr m) = inr m
  keep_cases false p a x xs h m = inr m

  pub Member-of_keep :
      (p : A → Bool) (a : A) (xs : List A) → Member a (keep p xs) → Member a xs × (p a ≡ true)
  Member-of_keep p a [] m = elim m [ ]
  Member-of_keep p a (x ∷ xs) m = elim (keep_cases (p x) p a x xs refl m) [
    | inl (e, q) ↦ (inl e, q)
    | inr n ↦ let (k, q) = Member-of_keep p a xs n in (inr k, q)
  ]

  pub find?-sound :
      (p : A → Bool) (xs : List A) (a : A) → find? p xs ≡ some a → Member a xs × (p a ≡ true)
  find?-sound p [] a h = cc
  find?-sound p (x ∷ xs) a h = elim (Bool-cases (p x)) [
    | inl t ↦ (inl (ground arith), ground arith)
    | inr t ↦ let (m, q) = find?-sound p xs a (rw t at h) in (inr m, q)
  ]

module _ {ℓ κ} {A : Type ℓ} (P : A → Type κ) where
  abbrev pub All : List A → Type κ
  All [] = Unit
  All (x ∷ xs) = P x × All xs

  pub All-append : (xs ys : List A) → All xs → All ys → All (xs ++ ys)
  All-append [] ys _ hy = hy
  All-append (x ∷ xs) ys (px, hx) hy = (px, All-append xs ys hx hy)

  pub All-take : (n : ℕ) (xs : List A) → All xs → All (take n xs)
  All-take zero xs h = tt
  All-take (suc n) [] h = tt
  All-take (suc n) (x ∷ xs) (px, h) = (px, All-take n xs h)

  pub All-keep : (p : A → Bool) (xs : List A) → All xs → All (keep p xs)
  All-keep p [] h = tt
  All-keep p (x ∷ xs) (px, h) = elim (Bool-cases (p x)) [
    | inl t ↦ rw t (px, All-keep p xs h)
    | inr t ↦ rw t (All-keep p xs h)
  ]

module _ {κ} {A : Type 0} (P : A → Type κ) where
  pub All-Member : (xs : List A) (a : A) → All P xs → Member a xs → P a
  All-Member [] a h m = elim m [ ]
  All-Member (x ∷ xs) a (px, h) (inl e) = rw e px
  All-Member (x ∷ xs) a (px, h) (inr m) = All-Member xs a h m

  pub All-of_Member : (xs : List A) → ((a : A) → Member a xs → P a) → All P xs
  All-of_Member [] h = tt
  All-of_Member (x ∷ xs) h = (h x (inl refl), All-of_Member xs (λ a m. h a (inr m)))

module _ {A : Type 0} where
  two_of_members : (a b : A) (xs : List A) → Member a xs → Member b xs → ¬ (a ≡ b) → 2 ≤ length xs
  two_of_members a b [] m n ne = elim m [ ]
  two_of_members a b (x ∷ []) (inl e) (inl f) ne = absurd (ne (e ∙ sym f))
  two_of_members a b (x ∷ []) (inl e) (inr n) ne = elim n [ ]
  two_of_members a b (x ∷ []) (inr m) n ne = elim m [ ]
  two_of_members a b (x ∷ y ∷ xs) m n ne = omega arith

  -- Two different members that pass the test are both counted.
  pub two_kept :
      (p : A → Bool) (a b : A) (xs : List A)
      → Member a xs
      → Member b xs
      → p a ≡ true
      → p b ≡ true
      → ¬ (a ≡ b)
      → 2 ≤ length (keep p xs)
  two_kept p a b xs m n ha hb ne =
      two_of_members a b (keep p xs) (Member-keep p a xs m ha) (Member-keep p b xs n hb) ne
