-- ===== src/Base/Order.antt =====
-- slices.Sort and slices.Compact on texts, in the order of their code points, which is that of
-- their UTF-8 bytes.
use mathlib.Core.List.{List, [], ◌∷◌}
use nk.Base.Tests.{ltb, ◌==◌, if◌then◌else◌, Bool-cases}
use nk.Base.Lists.{All, All-take, Member, take}
use nk.Base.Text.{Text, text_eq, text_eq_iff}
use mathlib.Core.Path.{◌≡◌, refl, sym, ◌∙◌}
use Prim.Native.Nat.{ℕ, zero, suc}
use mathlib.Core.Logic.{◌⊎◌, inl, inr}
use mathlib.Core.Bool.{Bool, true, false, ◌&&◌, ◌||◌}
use native.Mathlib.Omega.{arith}

pub text_ltb : Text → Text → Bool
text_ltb s [] = false
text_ltb [] (d ∷ t) = true
text_ltb (c ∷ s) (d ∷ t) = ltb c d || (c == d && text_ltb s t)

abbrev pub Below : Text → Text → Type 0
Below s t = text_ltb s t ≡ true

insert : Text → List Text → List Text
unfolding text_ltb
insert x [] = x ∷ []
insert x (y ∷ ys) = let rest = insert x ys in if text_ltb y x then y ∷ rest else x ∷ y ∷ ys

unfoldable pub sort : List Text → List Text
unfolding insert
sort [] = []
sort (x ∷ xs) = insert x (sort xs)

compact_after : Text → List Text → List Text
compact_after x [] = []
compact_after x (y ∷ ys) =
    let same = compact_after x ys in
    let other = y ∷ compact_after y ys in if text_eq x y then same else other

unfoldable pub compact : List Text → List Text
unfolding compact_after text_eq
compact [] = []
compact (x ∷ xs) = x ∷ compact_after x xs

-- No text is below an earlier one.
abbrev Sorted : List Text → Type 0
Sorted [] = Unit
Sorted (x ∷ xs) = All (λ y. text_ltb y x ≡ false) xs × Sorted xs

-- Each text is below every later one; so no text occurs twice.
abbrev pub Increasing : List Text → Type 0
Increasing [] = Unit
Increasing (x ∷ xs) = All (Below x) xs × Increasing xs

ltb_trans : (s t u : Text) → Below s t → Below t u → Below s u
unfolding text_ltb
ltb_trans [] [] u p q = ground arith
ltb_trans [] (d ∷ t) (e ∷ u) p q = refl
ltb_trans (c ∷ s) (d ∷ t) (e ∷ u) p q = ground (arith, ltb_trans s t u)
ltb_trans s t u p q = ground arith

ltb_total : (s t : Text) → text_ltb s t ≡ false → (s ≡ t) ⊎ Below t s
unfolding text_ltb
ltb_total [] [] h = inl refl
ltb_total (c ∷ s) (d ∷ t) h = ground (arith, ltb_total s t)
ltb_total (c ∷ s) [] h = inr refl
ltb_total [] (d ∷ t) h = ground arith

ltb_asym : (s t : Text) → Below s t → text_ltb t s ≡ false
unfolding text_ltb
ltb_asym [] (d ∷ t) h = refl
ltb_asym (c ∷ s) (d ∷ t) h = ground (arith, ltb_asym s t)
ltb_asym s [] h = ground arith

-- What is not below `y`, and `y` not below `x`, is not below `x`.
not_below_trans :
    (x y z : Text) → text_ltb y x ≡ false → text_ltb z y ≡ false → text_ltb z x ≡ false
not_below_trans x y z p q = elim (Bool-cases (text_ltb z x)) [
  | inr h ↦ h
  | inl h ↦ elim (ltb_total y x p) [ inl e ↦ rw (← e) q | inr l ↦ cc (ltb_trans z x y h l) ]
]

All-map_not_below :
    (x y : Text) (zs : List Text)
    → text_ltb y x ≡ false
    → All (λ z. text_ltb z y ≡ false) zs
    → All (λ z. text_ltb z x ≡ false) zs
All-map_not_below x y [] p h = tt
All-map_not_below x y (z ∷ zs) p (q, h) = (not_below_trans x y z p q, All-map_not_below x y zs p h)

All-map-Below : (x y : Text) (zs : List Text) → Below x y → All (Below y) zs → All (Below x) zs
All-map-Below x y [] p h = tt
All-map-Below x y (z ∷ zs) p (q, h) = (ltb_trans x y z p q, All-map-Below x y zs p h)

module _ {ℓ} (P : Text → Type ℓ) where
  insert-All : (x : Text) (ys : List Text) → P x → All P ys → All P (insert x ys)
  unfolding insert
  insert-All x [] px h = (px, tt)
  insert-All x (y ∷ ys) px (py, h) = elim (Bool-cases (text_ltb y x)) [
    | inl t ↦ rw t (py, insert-All x ys px h)
    | inr t ↦ rw t (px, (py, h))
  ]

  pub sort-All : (xs : List Text) → All P xs → All P (sort xs)
  unfolding sort
  sort-All [] h = tt
  sort-All (x ∷ xs) (px, h) = insert-All x (sort xs) px (sort-All xs h)

  compact_after-All : (x : Text) (ys : List Text) → All P ys → All P (compact_after x ys)
  unfolding compact_after
  compact_after-All x [] h = tt
  compact_after-All x (y ∷ ys) (py, h) = elim (Bool-cases (text_eq x y)) [
    | inl t ↦ rw t (compact_after-All x ys h)
    | inr t ↦ rw t (py, compact_after-All y ys h)
  ]

  pub compact-All : (xs : List Text) → All P xs → All P (compact xs)
  unfolding compact
  compact-All [] h = tt
  compact-All (x ∷ xs) (px, h) = (px, compact_after-All x xs h)

insert-Sorted : (x : Text) (ys : List Text) → Sorted ys → Sorted (insert x ys)
unfolding insert
insert-Sorted x [] h = (tt, tt)
insert-Sorted x (y ∷ ys) (q, h) = elim (Bool-cases (text_ltb y x)) [
  | inl t ↦
      rw t (insert-All (λ z. text_ltb z y ≡ false) x ys (ltb_asym y x t) q, insert-Sorted x ys h)
  | inr t ↦ rw t ((t, All-map_not_below x y ys t q), (q, h))
]

sort-Sorted : (xs : List Text) → Sorted (sort xs)
unfolding sort
sort-Sorted [] = tt
sort-Sorted (x ∷ xs) = insert-Sorted x (sort xs) (sort-Sorted xs)

compact_after-Increasing :
    (x : Text) (ys : List Text)
    → All (λ y. text_ltb y x ≡ false) ys
    → Sorted ys
    → All (Below x) (compact_after x ys) × Increasing (compact_after x ys)
unfolding compact_after
compact_after-Increasing x [] q h = (tt, tt)
compact_after-Increasing x (y ∷ ys) (p, q) (r, h) = elim (Bool-cases (text_eq x y)) [
  | inl t ↦ rw t (compact_after-Increasing x ys q h)
  | inr t ↦
      let (lower, inc) = compact_after-Increasing y ys r h in
      let less = strict p t in rw t ((less, All-map-Below x y _ less lower), (lower, inc))
]
  where
    strict : text_ltb y x ≡ false → text_eq x y ≡ false → Below x y
    strict p t = elim (ltb_total y x p) [ inl e ↦ cc ((text_eq_iff x y).1 (sym e), t) | inr l ↦ l ]

-- Sorting and dropping neighbours that are equal leaves each text once.
pub compact-sort-Increasing : (xs : List Text) → Increasing (compact (sort xs))
unfolding compact
compact-sort-Increasing xs = from_sorted (sort xs) (sort-Sorted xs)
  where
    from_sorted : (ys : List Text) → Sorted ys → Increasing (compact ys)
    from_sorted [] h = tt
    from_sorted (y ∷ ys) (q, h) = compact_after-Increasing y ys q h

insert-Member : (a x : Text) (ys : List Text) → Member a (x ∷ ys) → Member a (insert x ys)
unfolding insert
insert-Member a x [] m = m
insert-Member a x (y ∷ ys) m = elim (Bool-cases (text_ltb y x)) [
  | inr t ↦ rw t m
  | inl t ↦ rw t (elim m [
    | inl e ↦ inr (insert-Member a x ys (inl e))
    | inr (inl e) ↦ inl e
    | inr (inr n) ↦ inr (insert-Member a x ys (inr n))
  ])
]

pub sort-Member : (a : Text) (xs : List Text) → Member a xs → Member a (sort xs)
unfolding sort
sort-Member a [] m = m
sort-Member a (x ∷ xs) (inl e) = insert-Member a x (sort xs) (inl e)
sort-Member a (x ∷ xs) (inr m) = insert-Member a x (sort xs) (inr (sort-Member a xs m))

compact_after-Member :
    (a x : Text) (ys : List Text) → Member a (x ∷ ys) → Member a (x ∷ compact_after x ys)
unfolding compact_after
compact_after-Member a x ys (inl e) = inl e
compact_after-Member a x [] (inr m) = inr m
compact_after-Member a x (y ∷ ys) (inr m) = elim (Bool-cases (text_eq x y)) [
  | inr t ↦ rw t (inr (compact_after-Member a y ys m))
  | inl t ↦ rw t (
      compact_after-Member a x ys
        (elim m [ inl e ↦ inl (e ∙ sym ((text_eq_iff x y).0 t)) | inr n ↦ inr n ]))
]

pub compact-Member : (a : Text) (xs : List Text) → Member a xs → Member a (compact xs)
unfolding compact
compact-Member a [] m = m
compact-Member a (x ∷ xs) m = compact_after-Member a x xs m

pub take-Increasing : (n : ℕ) (xs : List Text) → Increasing xs → Increasing (take n xs)
take-Increasing zero xs h = tt
take-Increasing (suc n) [] h = tt
take-Increasing (suc n) (x ∷ xs) (p, h) = (All-take (Below x) n xs p, take-Increasing n xs h)
