-- ===== src/Ssh/Own/Claims.antt =====
-- internal/ssh/own.go: which names a block of the user's config stands for.
use nk.Base.{Bool, false, ◌&&◌, ◌||◌, not, List, [], ◌∷◌, ◌≡◌, any, arith}
use nk.Base.Text.{Text, is_empty, trim}
use nk.Ssh.Glob.{path_match}
use nk.Ssh.Own.{OwnBlock, cut_bang, is_wildcard, matches_from, block_matches}

-- A pattern behind a `!` that matches the name.
abbrev pub vetoes : Text → Text → Bool
vetoes name raw = path_match (cut_bang raw).0 name && (cut_bang raw).1

-- A pattern with no `!` and not of wildcards only that matches the name.
abbrev pub selects : Text → Text → Bool
selects name raw =
    path_match (cut_bang raw).0 name
    && (not (cut_bang raw).1 && not (is_empty (trim is_wildcard (cut_bang raw).0)))

matches_from_lem :
    (name : Text) (named : Bool) (ps : List Text)
    → matches_from name named ps ≡ (not (any (vetoes name) ps) && (named || any (selects name) ps))
unfolding matches_from
matches_from_lem name named [] = ground arith
matches_from_lem name named (raw ∷ rest) = ground (
  arith,
  matches_from_lem name named rest,
  matches_from_lem name (named || not (is_empty (trim is_wildcard (cut_bang raw).0))) rest,
)

-- A block stands for a name when some pattern that is more than wildcards selects it and no negated
-- pattern matches it, in whatever order the patterns stand.
pub block_matches_lem :
    (name : Text) (b : OwnBlock)
    → block_matches name b ≡ (not (any (vetoes name) b.patterns) && any (selects name) b.patterns)
unfolding block_matches
block_matches_lem name b = matches_from_lem name false b.patterns
