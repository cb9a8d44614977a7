-- ===== src/Ssh/Config/Quote.antt =====
-- internal/ssh/config.go: `configValue` against the way that ssh reads a quoted argument.
use nk.Base.{
  ℕ, Bool, true, false, ◌||◌, [], ◌∷◌, ◌++◌, Option, none, some, ◌≡◌, refl, ◌==◌, if◌then◌else◌,
  arith, append_assoc,
}
use nk.Base.Text.{Text}
use nk.Ssh.Config.{escape_char, escape, config_value}

abbrev onto : ℕ → Option (Text × Text) → Option (Text × Text)
onto c none = none
onto c (some (v, rest)) = some (c ∷ v, rest)

-- ssh reads up to the closing quote; a backslash before a quote or a backslash is dropped. The flag
-- says whether the last character was such a backslash.
read_quoted : Bool → Text → Option (Text × Text)
read_quoted pending [] = none
read_quoted true (c ∷ s) =
    let rest = read_quoted false s in
    if c == b'\\' || c == b'"' || c == b'\'' then onto c rest else onto b'\\' (onto c rest)
read_quoted false (c ∷ s) =
    let next = read_quoted true s in
    let plain = read_quoted false s in
    if c == b'\\' then next else if c == b'"' then some ([], s) else onto c plain

pub read_argument : Text → Option (Text × Text)
unfolding read_quoted
read_argument [] = none
read_argument (c ∷ s) = if c == b'"' then read_quoted false s else none

read_quoted-escape_char :
    (c : ℕ) (s : Text) → read_quoted false (escape_char c ++ s) ≡ onto c (read_quoted false s)
unfolding read_quoted escape_char
read_quoted-escape_char c s = ground arith

read_quoted-escape :
    (v rest : Text) → read_quoted false (escape v ++ (b'"' ∷ rest)) ≡ some (v, rest)
unfolding escape
read_quoted-escape [] rest = unfold read_quoted in refl
read_quoted-escape (c ∷ v) rest =
    rw (append_assoc, read_quoted-escape_char, read_quoted-escape v rest)

-- ssh reads a quoted value back as it was, whatever backslashes and quotes it holds, and stops
-- right behind it.
pub read-config_value : (v rest : Text) → read_argument (config_value v ++ rest) ≡ some (v, rest)
unfolding read_argument config_value
read-config_value v rest = rw append_assoc (read_quoted-escape v rest)
