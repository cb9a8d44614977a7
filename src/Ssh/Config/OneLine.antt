-- ===== src/Ssh/Config/OneLine.antt =====
-- internal/ssh/config.go: which texts are one line of a generated file.
use nk.Base.{
  ℕ, ◌≡◌, refl, true, false, ◌||◌, not, List, [], ◌∷◌, ◌++◌, arith, ◌==◌, All, All-append, all,
}
use Prim.Native.String.{String}
use nk.Base.Text.{Text, codes}
use nk.Base.Lines.{Lacks}
use nk.State.{Target}
use nk.State.Safe.{IsIdChar}
use nk.Ssh.Config.{is_alnum, first_account, usable, escape_char, escape, config_value, head_text}
use nk.Ssh.Config.Aliases.{IsAliasChar}

abbrev pub OneLine : Text → Type 0
OneLine = Lacks b'\n'

pub join_lines : (xs ys : Text) → OneLine xs → OneLine ys → OneLine (xs ++ ys)
join_lines = All-append (λ x. (x == b'\n') ≡ false)

escape_char-OneLine : (c : ℕ) → (c == b'\n') ≡ false → OneLine (escape_char c)
unfolding escape_char
escape_char-OneLine c h = ground arith

escape-OneLine : (v : Text) → OneLine v → OneLine (escape v)
unfolding escape
escape-OneLine [] h = tt
escape-OneLine (c ∷ v) (hc, h) =
    join_lines (escape_char c) (escape v) (escape_char-OneLine c hc) (escape-OneLine v h)

pub config_value-OneLine : (v : Text) → OneLine v → OneLine (config_value v)
unfolding config_value
config_value-OneLine v h = (refl, join_lines (escape v) (b'"' ∷ []) (escape-OneLine v h) (refl, tt))

pub id-OneLine : (s : Text) → All IsIdChar s → OneLine s
id-OneLine [] h = tt
id-OneLine (c ∷ s) (hc, h) = (ground arith, id-OneLine s h)

pub alias-OneLine : (s : Text) → All IsAliasChar s → OneLine s
alias-OneLine [] h = tt
alias-OneLine (c ∷ s) (hc, h) = (ground arith, alias-OneLine s h)

account_chars-OneLine :
    (s : Text) → all (λ x. is_alnum x || x == b'.' || x == b'_' || x == b'-') s ≡ true → OneLine s
account_chars-OneLine [] h = tt
account_chars-OneLine (c ∷ s) h = (ground arith, account_chars-OneLine s (ground arith))

pub usable-account : (t : Target) → usable t ≡ true → first_account t.usernames ≡ true
unfolding usable
usable-account t h = ground arith

pub account-OneLine : (names : List Text) → first_account names ≡ true → OneLine (head_text names)
unfolding first_account
account-OneLine [] h = tt
account-OneLine ([] ∷ rest) h = tt
account-OneLine ((c ∷ s) ∷ rest) h = (ground arith, account_chars-OneLine s (ground arith))

all-OneLine : (s : Text) → all (λ c. not (c == b'\n')) s ≡ true → OneLine s
all-OneLine [] h = tt
all-OneLine (c ∷ s) h = (ground arith, all-OneLine s (ground arith))

pub literal : (s : String) → all (λ c. not (c == b'\n')) (codes s) ≡ true → OneLine (codes s)
literal s h = all-OneLine (codes s) h

-- A keyword and its value.
pub keyed :
    (s : String) (v : Text)
    → all (λ c. not (c == b'\n')) (codes s) ≡ true
    → OneLine v
    → OneLine (codes s ++ v)
keyed s v h hv = join_lines (codes s) v (literal s h) hv
