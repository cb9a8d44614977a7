-- ===== src/Ssh/Own.antt =====
-- internal/ssh/own.go: what the user's own ssh config says of host names.
pub mod Claims
pub mod Reader
use nk.Base.{
  ℕ, suc, zero, ◌+◌, Bool, true, false, ◌&&◌, ◌||◌, not, List, [], ◌∷◌, ◌++◌, map, Option, none,
  some, ◌≡◌, refl, any, ltb, leb, ◌==◌, if◌then◌else◌,
}
use nk.Base.Text.{
  Text, codes, text_eq, is_empty, CaseTables, to_lower, trim, trim_left, trim_space, split,
}
use nk.Ssh.Glob.{path_match}

pub record OwnBlock : Type 0 where
  pub patterns : List Text
  pub dest : Bool

-- strings.CutPrefix(raw, "!")
unfoldable pub cut_bang : Text → Text × Bool
cut_bang [] = ([], false)
cut_bang (c ∷ s) = if c == b'!' then (s, true) else (c ∷ s, false)

abbrev pub is_wildcard : ℕ → Bool
is_wildcard c = c == b'*' || c == b'?'

-- the loop of ownBlock.matches, `named` so far
unfoldable pub matches_from : Text → Bool → List Text → Bool
unfolding cut_bang path_match trim
matches_from name named [] = named
matches_from name named (raw ∷ rest) =
    let next = matches_from name named rest in
    let found =
      matches_from name (named || not (is_empty (trim is_wildcard (cut_bang raw).0))) rest in
    if not (path_match (cut_bang raw).0 name)
    then next
    else if (cut_bang raw).1
    then false
    else found

-- ownBlock.matches
unfoldable pub block_matches : Text → OwnBlock → Bool
unfolding matches_from
block_matches name b = matches_from name false b.patterns

module _ (u : CaseTables) where
  -- ownHosts.claims
  unfoldable pub claims : List OwnBlock → Text → Bool
  unfolding block_matches to_lower
  claims own name = any (λ (b : OwnBlock). b.dest && block_matches (to_lower u name) b) own

-- The loop of configLine over the rest of the line: the arguments so far, the one being read, and
-- the flags `quoted` and `open`.
abbrev is_break : ℕ → Bool
is_break c = c == b' ' || c == b'\t' || c == b'#'

line_args : Text → List Text → Text → Bool → Bool → List Text
line_args [] args arg quoted open_arg = args
line_args (c ∷ s) args arg quoted open_arg =
    let toggled = line_args s args arg (not quoted) true in
    let more = line_args s args (arg ++ c ∷ []) quoted true in
    let closed = if open_arg then args ++ arg ∷ [] else args in
    let blank = line_args s closed (if open_arg then [] else arg) quoted false in
    if c == b'"'
    then toggled
    else if quoted || not (is_break c)
    then more
    else if c == b'#'
    then closed
    else blank

-- strings.IndexAny(line, " \t="): the text before the first of them, and the rest with it
abbrev is_key_end : ℕ → Bool
is_key_end c = c == b' ' || c == b'\t' || c == b'='

unfoldable pub cut_key : Text → Text × Text
cut_key [] = ([], [])
cut_key (c ∷ s) = let rest = cut_key s in if is_key_end c then ([], c ∷ s) else (c ∷ rest.0, rest.1)

-- strings.TrimPrefix(rest, "=")
unfoldable pub trim_equals : Text → Text
trim_equals [] = []
trim_equals (c ∷ s) = if c == b'=' then s else c ∷ s

abbrev is_blank : ℕ → Bool
is_blank c = c == b' ' || c == b'\t'

abbrev starts_comment : Text → Bool
starts_comment [] = true
starts_comment (c ∷ s) = c == b'#'

module _ (u : CaseTables) where
  -- configLine
  unfoldable pub config_line : Text → Text × List Text
  unfolding line_args cut_key trim_equals trim_left trim_space to_lower
  config_line raw =
      let line = trim_space raw in
      let parts = cut_key line in
      let rest = trim_equals (trim_left is_blank parts.1) in
      if starts_comment line
      then ([], [])
      else (to_lower u parts.0, line_args (rest ++ codes " ") [] [] false false)

  -- matchHosts
  unfoldable pub match_hosts : List Text → List Text
  unfolding to_lower split text_eq
  match_hosts [] = []
  match_hosts (a ∷ []) = []
  match_hosts (a ∷ b ∷ rest) =
      let skip_one = match_hosts (b ∷ rest) in
      let skip_two = match_hosts rest in
      let word = to_lower u a in
      if text_eq word (codes "all")
        || text_eq word (codes "final")
        || text_eq word (codes "canonical")
      then skip_one
      else if text_eq word (codes "host") || text_eq word (codes "originalhost")
      then split b',' (to_lower u b) ++ skip_two
      else skip_two
