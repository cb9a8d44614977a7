-- ===== src/Ssh/Glob.antt =====
-- Go's `path.Match`, which internal/ssh/own.go calls on the host patterns of the user's config, for
-- names without a slash. A pattern is read into tokens first; a malformed one matches nothing.
use nk.Base.{
  ℕ, Bool, true, false, ◌&&◌, ◌||◌, not, List, [], ◌∷◌, Option, none, some, ◌≡◌, refl, any, ◌==◌,
  within, if◌then◌else◌,
}
use nk.Base.Text.{Text, codes}

pub data Token : Type 0 where
  star one : Token
  char : ℕ → Token
  class : Bool → List (ℕ × ℕ) → Token

-- Where the reader stands: between tokens, behind a backslash, or in a class, which knows whether
-- it is negated, its ranges so far, and the low end of a range that may go on.
pub data Mode : Type 0 where
  outside escaped class_start : Mode
  class_next escaped_low : Bool → List (ℕ × ℕ) → Mode
  class_low class_dash escaped_high : Bool → List (ℕ × ℕ) → ℕ → Mode

pub data Step : Type 0 where
  go : Mode → Step
  emit : Token → Step
  bad : Step

-- The next item of a class, or its end where it has a range already.
next_item : Bool → Bool → List (ℕ × ℕ) → ℕ → Step
next_item some_range neg rs c =
    if some_range && c == b']'
    then emit (class neg rs)
    else if c == b'\\'
    then go (escaped_low neg rs)
    else if c == b'-' || c == b']'
    then bad
    else go (class_low neg rs c)

step : Mode → ℕ → Step
unfolding next_item
step outside c =
    if c == b'*'
    then emit star
    else if c == b'?'
    then emit one
    else if c == b'\\'
    then go escaped
    else if c == b'['
    then go class_start
    else emit (char c)
step escaped c = emit (char c)
step class_start c = if c == b'^' then go (class_next true []) else next_item false false [] c
step (class_next neg []) c = next_item false neg [] c
step (class_next neg (r ∷ rs)) c = next_item true neg (r ∷ rs) c
step (escaped_low neg rs) c = go (class_low neg rs c)
step (class_low neg rs lo) c =
    if c == b'-' then go (class_dash neg rs lo) else next_item true neg ((lo, lo) ∷ rs) c
step (class_dash neg rs lo) c =
    if c == b'\\'
    then go (escaped_high neg rs lo)
    else if c == b'-' || c == b']'
    then bad
    else go (class_next neg ((lo, c) ∷ rs))
step (escaped_high neg rs lo) c = go (class_next neg ((lo, c) ∷ rs))

abbrev prepend : Token → Option (List Token) → Option (List Token)
prepend t none = none
prepend t (some ts) = some (t ∷ ts)

-- `none` for a malformed pattern.
tokens : Mode → Text → Option (List Token)
unfolding step
tokens outside [] = some []
tokens _ [] = none
tokens m (c ∷ p) = elim (step m c) [
  | go m' ↦ tokens m' p
  | emit t ↦ prepend t (tokens outside p)
  | bad ↦ none
]

-- A star takes any characters but slashes.
star_match : (Text → Bool) → Text → Bool
star_match rest [] = rest []
star_match rest (c ∷ s) = rest (c ∷ s) || (not (c == b'/') && star_match rest s)

abbrev in_class : Bool → List (ℕ × ℕ) → ℕ → Bool
in_class true rs c = not (any (λ (r : ℕ × ℕ). within r.0 r.1 c) rs)
in_class false rs c = any (λ (r : ℕ × ℕ). within r.0 r.1 c) rs

match_tokens : List Token → Text → Bool
unfolding star_match
match_tokens [] [] = true
match_tokens [] (c ∷ s) = false
match_tokens (star ∷ ts) s = star_match (match_tokens ts) s
match_tokens (one ∷ ts) (c ∷ s) = not (c == b'/') && match_tokens ts s
match_tokens (char d ∷ ts) (c ∷ s) = c == d && match_tokens ts s
match_tokens (class neg rs ∷ ts) (c ∷ s) = in_class neg rs c && match_tokens ts s
match_tokens (one ∷ ts) [] = false
match_tokens (char d ∷ ts) [] = false
match_tokens (class neg rs ∷ ts) [] = false

-- path.Match(pattern, name), its error read as no match.
unfoldable pub path_match : Text → Text → Bool
unfolding tokens match_tokens
path_match pattern name = elim (tokens outside pattern) [
  | none ↦ false
  | some ts ↦ match_tokens ts name
]

path_match_tests :
    (path_match (codes "*.example.com") (codes "web.example.com") ≡ true)
    × (path_match (codes "we?") (codes "web") ≡ true)
    × (path_match (codes "[a-c]x") (codes "bx") ≡ true)
    × (path_match (codes "[^a-c]x") (codes "bx") ≡ false)
    × (path_match (codes "[a") (codes "a") ≡ false)
unfolding path_match
path_match_tests = (refl, refl, refl, refl, refl)
