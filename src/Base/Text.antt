-- ===== src/Base/Text.antt =====
-- Text as the list of its code points, with the functions of Go's `strings` and `unicode` that the
-- program calls. A literal is written by `codes`.
use Prim.Native.Char.{code}
use Prim.Native.String.{String}
use Prim.Native.Nat.{ℕ, ◌+◌}
use mathlib.Core.Path.{◌≡◌, refl, sym}
use mathlib.Core.Logic.{◌↔◌, inl, inr}
use mathlib.Core.Bool.{Bool, true, false, ◌&&◌, ◌||◌}
use mathlib.Core.List.{List, [], ◌∷◌, ◌++◌, map}
use native.Mathlib.Omega.{arith}
use nk.Base.Tests.{ltb, ◌==◌, within, if◌then◌else◌, Bool-cases}
use nk.Base.Lists.{any, Member}

abbrev pub Text : Type 0
Text = List ℕ

abbrev pub codes : String → Text
codes String.[] = []
codes (String.◌∷◌ c s) = code c ∷ codes s

unfoldable pub text_eq : Text → Text → Bool
text_eq [] [] = true
text_eq (c ∷ s) (d ∷ t) = c == d && text_eq s t
text_eq _ _ = false

pub text_eq_iff : (s t : Text) → (text_eq s t ≡ true) ↔ (s ≡ t)
unfolding text_eq
text_eq_iff (c ∷ s) (d ∷ t) = ground (arith, text_eq_iff s t)
text_eq_iff _ _ = ground arith

pub text_eq_refl : (s : Text) → text_eq s s ≡ true
text_eq_refl s = (text_eq_iff s s).1 refl

-- s == ""
abbrev pub is_empty : Text → Bool
is_empty [] = true
is_empty (c ∷ s) = false

-- slices.Contains
unfoldable pub contains : List Text → Text → Bool
unfolding text_eq
contains xs t = any (λ x. text_eq x t) xs

-- unicode.IsSpace: Unicode's White_Space property.
unfoldable pub is_space : ℕ → Bool
is_space c =
    within 0x09 0x0d c
    || c == 0x20
    || c == 0x85
    || c == 0xa0
    || c == 0x1680
    || within 0x2000 0x200a c
    || within 0x2028 0x2029 c
    || c == 0x202f
    || c == 0x205f
    || c == 0x3000

-- unicode.IsControl: the category Cc.
unfoldable pub is_control : ℕ → Bool
is_control c = ltb c 0x20 || within 0x7f 0x9f c

unfoldable pub trim_left : (ℕ → Bool) → Text → Text
trim_left p [] = []
trim_left p (c ∷ s) = let rest = trim_left p s in if p c then rest else c ∷ s

-- One character before a text whose end is trimmed.
abbrev pub before_trimmed : Bool → ℕ → Text → Text
before_trimmed drop c (d ∷ s) = c ∷ d ∷ s
before_trimmed true c [] = []
before_trimmed false c [] = c ∷ []

unfoldable pub trim_right : (ℕ → Bool) → Text → Text
trim_right p [] = []
trim_right p (c ∷ s) = before_trimmed (p c) c (trim_right p s)

-- strings.Trim with a cut set given by its test
unfoldable pub trim : (ℕ → Bool) → Text → Text
unfolding trim_left trim_right
trim p s = trim_right p (trim_left p s)

unfoldable pub trim_space : Text → Text
unfolding trim is_space
trim_space s = trim is_space s

unfoldable pub has_prefix : Text → Text → Bool
has_prefix s [] = true
has_prefix [] (d ∷ p) = false
has_prefix (c ∷ s) (d ∷ p) = c == d && has_prefix s p

unfoldable pub has_suffix : Text → Text → Bool
unfolding text_eq
has_suffix [] p = text_eq [] p
has_suffix (c ∷ s) p = text_eq (c ∷ s) p || has_suffix s p

-- A text with a suffix is some text followed by it.
pub has_suffix_sound : (s p : Text) → has_suffix s p ≡ true → (q : Text) × (s ≡ q ++ p)
unfolding has_suffix
has_suffix_sound [] p h = ([], (text_eq_iff [] p).0 h)
has_suffix_sound (c ∷ s) p h = elim (Bool-cases (text_eq (c ∷ s) p)) [
  | inl e ↦ ([], (text_eq_iff (c ∷ s) p).0 e)
  | inr e ↦ let (q, eq) = has_suffix_sound s p (rw e at h) in (c ∷ q, λ i. c ∷ eq i)
]

pub contains_sound : (xs : List Text) (t : Text) → contains xs t ≡ true → Member t xs
unfolding contains
contains_sound [] t h = cc
contains_sound (x ∷ xs) t h = elim (Bool-cases (text_eq x t)) [
  | inl e ↦ inl (sym ((text_eq_iff x t).0 e))
  | inr e ↦ inr (contains_sound xs t (rw e at h))
]

pub contains_complete : (xs : List Text) (t : Text) → Member t xs → contains xs t ≡ true
unfolding contains
contains_complete [] t m = elim m [ ]
contains_complete (x ∷ xs) t (inl e) = rw (e, text_eq_refl x)
contains_complete (x ∷ xs) t (inr m) = ground (arith, contains_complete xs t m)

-- strings.Contains
unfoldable pub has_infix : Text → Text → Bool
unfolding has_prefix
has_infix [] p = has_prefix [] p
has_infix (c ∷ s) p = has_prefix (c ∷ s) p || has_infix s p

abbrev pub onto_first : ℕ → List Text → List Text
onto_first c [] = (c ∷ []) ∷ []
onto_first c (w ∷ ws) = (c ∷ w) ∷ ws

-- strings.Split and strings.SplitSeq at one character
unfoldable pub split : ℕ → Text → List Text
split sep [] = [] ∷ []
split sep (c ∷ s) = let rest = split sep s in if c == sep then [] ∷ rest else onto_first c rest

-- strings.Join with a one-character separator
unfoldable pub join : ℕ → List Text → Text
join sep [] = []
join sep (p ∷ []) = p
join sep (p ∷ q ∷ ps) = p ++ (sep ∷ join sep (q ∷ ps))

-- strings.Cut at one character: the text before it, the text behind it, and whether it is there.
unfoldable pub cut : ℕ → Text → Text × Text × Bool
cut sep [] = ([], [], false)
cut sep (c ∷ s) =
    let rest = cut sep s in if c == sep then ([], s, true) else (c ∷ rest.0, rest.1, rest.2)

-- The tables of Unicode beyond ASCII that `unicode.ToLower` and `strings.EqualFold` read.
pub record CaseTables : Type 0 where
  pub lower : ℕ → ℕ
  pub fold : ℕ → ℕ

unfoldable pub lower_with : (ℕ → ℕ) → ℕ → ℕ
lower_with wide c = if within b'A' b'Z' c then c + 32 else if ltb c 0x80 then c else wide c

-- strings.ToLower
unfoldable pub to_lower : CaseTables → Text → Text
unfolding lower_with
to_lower u = map (lower_with u.lower)

-- strings.EqualFold: the texts agree, each character replaced by its fold.
unfoldable pub equal_fold : CaseTables → Text → Text → Bool
unfolding lower_with text_eq
equal_fold u s t = text_eq (map (lower_with u.fold) s) (map (lower_with u.fold) t)

-- cmp.Or on texts: the first that is not empty
abbrev pub first_of_texts : Text → Text → Text
first_of_texts [] t = t
first_of_texts (c ∷ s) t = c ∷ s

split_test : split b',' (codes "a,,b") ≡ codes "a" ∷ [] ∷ codes "b" ∷ []
unfolding split
split_test = refl

trim_test : trim_space (codes " a b\n") ≡ codes "a b"
unfolding trim_space
trim_test = refl
