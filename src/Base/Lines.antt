-- ===== src/Base/Lines.antt =====
-- Splitting and joining at one character: what the file formats of the program rest on.
use Prim.Native.Nat.{ℕ}
use mathlib.Core.Path.{◌≡◌, refl, sym, ◌∙◌, ap}
use mathlib.Core.Logic.{inl, inr}
use mathlib.Core.Bool.{false}
use mathlib.Core.List.{List, [], ◌∷◌, ◌++◌, append_assoc}
use nk.Base.Tests.{◌==◌, ==_iff, Bool-cases}
use nk.Base.Lists.{All}
use nk.Base.Text.{Text, split, join, onto_first}

abbrev pub Lacks : ℕ → Text → Type 0
Lacks c s = All (λ x. (x == c) ≡ false) s

-- The first part of a split and the others.
abbrev pub IsCons : List Text → Type 0
IsCons [] = ⊥
IsCons (w ∷ ws) = Unit

onto_first-IsCons : (c : ℕ) (ws : List Text) → IsCons (onto_first c ws)
onto_first-IsCons c [] = tt
onto_first-IsCons c (w ∷ ws) = tt

pub split-IsCons : (sep : ℕ) (s : Text) → IsCons (split sep s)
unfolding split
split-IsCons sep [] = tt
split-IsCons sep (c ∷ s) = elim (Bool-cases (c == sep)) [
  | inl h ↦ rw h tt
  | inr h ↦ rw h (onto_first-IsCons c (split sep s))
]

pub split_whole : (sep : ℕ) (s : Text) → Lacks sep s → split sep s ≡ s ∷ []
unfolding split
split_whole sep [] h = refl
split_whole sep (c ∷ s) (hc, h) = rw (hc, split_whole sep s h)

pub split-append :
    (sep : ℕ) (s rest : Text) → Lacks sep s → split sep (s ++ (sep ∷ rest)) ≡ s ∷ split sep rest
unfolding split
split-append sep [] rest h = rw ((==_iff sep sep).1 refl)
split-append sep (c ∷ s) rest (hc, h) = rw (hc, split-append sep s rest h)

pub split-join :
    (sep : ℕ) (ps : List Text) → IsCons ps → All (Lacks sep) ps → split sep (join sep ps) ≡ ps
unfolding join
split-join sep [] ne h = absurd ne
split-join sep (p ∷ []) ne (hp, h) = split_whole sep p hp
split-join sep (p ∷ q ∷ ps) ne (hp, h) =
    split-append sep p (join sep (q ∷ ps)) hp ∙ ap (◌∷◌ p) (split-join sep (q ∷ ps) tt h)

join-onto_first :
    (sep c : ℕ) (ws : List Text) → IsCons ws → join sep (onto_first c ws) ≡ c ∷ join sep ws
unfolding join
join-onto_first sep c [] ne = absurd ne
join-onto_first sep c (w ∷ []) ne = refl
join-onto_first sep c (w ∷ v ∷ ws) ne = refl

pub join_empty_first :
    (sep : ℕ) (ws : List Text) → IsCons ws → join sep ([] ∷ ws) ≡ sep ∷ join sep ws
unfolding join
join_empty_first sep [] ne = absurd ne
join_empty_first sep (w ∷ ws) ne = refl

pub join-split : (sep : ℕ) (s : Text) → join sep (split sep s) ≡ s
unfolding split
join-split sep [] = unfold join in refl
join-split sep (c ∷ s) = elim (Bool-cases (c == sep)) [
  | inl h ↦ rw h (
      join_empty_first sep (split sep s) (split-IsCons sep s)
      ∙ ap (◌∷◌ sep) (join-split sep s)
      ∙ ap (λ (x : ℕ). x ∷ s) (sym ((==_iff c sep).0 h)))
  | inr h ↦
      rw h
        (join-onto_first sep c (split sep s) (split-IsCons sep s) ∙ ap (◌∷◌ c) (join-split sep s))
]

onto_first-Lacks :
    (sep c : ℕ) (ws : List Text)
    → (c == sep) ≡ false
    → All (Lacks sep) ws
    → All (Lacks sep) (onto_first c ws)
onto_first-Lacks sep c [] hc h = ((hc, tt), tt)
onto_first-Lacks sep c (w ∷ ws) hc (hw, h) = ((hc, hw), h)

pub split-Lacks : (sep : ℕ) (s : Text) → All (Lacks sep) (split sep s)
unfolding split
split-Lacks sep [] = (tt, tt)
split-Lacks sep (c ∷ s) = elim (Bool-cases (c == sep)) [
  | inl h ↦ rw h (tt, split-Lacks sep s)
  | inr h ↦ rw h (onto_first-Lacks sep c (split sep s) h (split-Lacks sep s))
]

-- Each line with its newline behind it.
abbrev pub unlines : List Text → Text
unlines [] = []
unlines (l ∷ ls) = l ++ (b'\n' ∷ unlines ls)

pub unlines-append : (xs ys : List Text) → unlines (xs ++ ys) ≡ unlines xs ++ unlines ys
unlines-append [] ys = refl
unlines-append (x ∷ xs) ys = rw (unlines-append xs ys, append_assoc)

-- A file written line by line reads back as these lines, if none holds a newline.
pub split-unlines :
    (ls : List Text) → All (Lacks b'\n') ls → split b'\n' (unlines ls) ≡ ls ++ ([] ∷ [])
split-unlines [] h = unfold split in refl
split-unlines (l ∷ ls) (hl, h) =
    split-append b'\n' l (unlines ls) hl ∙ ap (◌∷◌ l) (split-unlines ls h)
