-- ===== src/Manual.antt =====
-- internal/manual/manual.go: what one probe of a host without the daemon reads.
-- strconv.Atoi is written out for the numbers that fit int64.
pub mod Accounts
pub mod Plan
pub mod Script
use nk.Base.{
  ℕ, ◌+◌, ◌-◌, ◌*◌, ◌≤◌, ◌<◌, ◌≡◌, Bool, true, false, ◌&&◌, ◌||◌, not, List, [], ◌∷◌, ◌++◌, Option,
  none, some, take, any, keep, leb, ltb, ◌==◌, within, if◌then◌else◌,
}
use nk.Base.Text.{Text, codes, text_eq, is_empty, trim_space, has_suffix, split, join}
use nk.Base.Order.{sort, compact}
use nk.Base.Clock.{sign_bit}

abbrev pub max_local_accounts : ℕ
max_local_accounts = 200

pub record Host : Type 0 where
  pub accounts : List Text
  pub host_key : Text
  pub principals : List Text

-- noLoginShell
unfoldable pub no_login_shell : Text → Bool
unfolding has_suffix
no_login_shell shell =
    has_suffix shell (codes "nologin")
    || has_suffix shell (codes "false")
    || has_suffix shell (codes "sync")

abbrev pub is_name_char : ℕ → Bool
is_name_char c =
    within b'a' b'z' c
    || within b'A' b'Z' c
    || within b'0' b'9' c
    || c == b'_'
    || c == b'-'
    || c == b'.'

-- safeName
unfoldable pub safe_name : Text → Bool
safe_name [] = false
safe_name (c ∷ s) = not (c == b'.' || c == b'-') && not (any (λ x. not (is_name_char x)) (c ∷ s))

-- the digits of a number, behind its sign
unfoldable pub digits : Text → ℕ → Option ℕ
digits [] n = some n
digits (c ∷ s) n =
    let rest = digits s (n * 10 + (c - b'0')) in if within b'0' b'9' c then rest else none

unfoldable pub some_digits : Text → Option ℕ
unfolding digits
some_digits [] = none
some_digits (c ∷ s) = digits (c ∷ s) 0

abbrev below_limit : ℕ → Option ℕ → Option ℕ
below_limit limit none = none
below_limit limit (some n) = if leb n limit then some n else none

-- strconv.Atoi: whether the number is negative, and its size; `none` is an error.
unfoldable pub atoi : Text → Option (Bool × ℕ)
unfolding some_digits
atoi [] = none
atoi (c ∷ s) =
    if c == b'-'
    then elim (below_limit sign_bit (some_digits s)) [ none ↦ none | some n ↦ some (true, n) ]
    else elim (below_limit (sign_bit - 1) (some_digits (if c == b'+' then s else c ∷ s))) [
      | none ↦ none
      | some n ↦ some (false, n)
    ]

-- `err != nil || (uid != 0 && uid < 1000)`
unfoldable pub refused_uid : Option (Bool × ℕ) → Bool
refused_uid none = true
refused_uid (some (negative, n)) = not (n == 0) && (negative || ltb n 1000)

-- One round of localAccounts: the account that a line of passwd names, if it is kept.
unfoldable pub account_of : List Text → Option Text
unfolding safe_name atoi refused_uid no_login_shell
account_of (name ∷ pw ∷ uid ∷ gid ∷ gecos ∷ home ∷ shell ∷ more) =
    if not (safe_name name)
    then none
    else if refused_uid (atoi uid) || no_login_shell shell
    then none
    else some name
account_of _ = none

unfoldable pub collect : List Text → List Text
unfolding account_of split
collect [] = []
collect (line ∷ lines) = elim (account_of (split b':' line)) [
  | none ↦ collect lines
  | some name ↦ name ∷ collect lines
]

-- localAccounts
unfoldable pub local_accounts : List Text → List Text
unfolding collect sort compact
local_accounts passwd = take max_local_accounts (compact (sort (collect passwd)))

pub data Section : Type 0 where
  before passwd hostkey principals : Section

-- The lines of each section so far, and the section that is read.
pub record Sections : Type 0 where
  pub current : Section
  pub passwd_lines : List Text
  pub hostkey_lines : List Text
  pub principals_lines : List Text

-- sections[current] = append(sections[current], line)
unfoldable pub add_line : Text → Section → Sections → Sections
add_line l before s = s
add_line l passwd s = record s { passwd_lines = s.passwd_lines ++ l ∷ [] }
add_line l hostkey s = record s { hostkey_lines = s.hostkey_lines ++ l ∷ [] }
add_line l principals s = record s { principals_lines = s.principals_lines ++ l ∷ [] }

-- the switch of ParseProbe
unfoldable pub probe_line : Text → Sections → Sections
unfolding add_line trim_space text_eq
probe_line l s =
    if text_eq l (codes "#nk passwd")
    then record s { current = passwd }
    else if text_eq l (codes "#nk hostkey")
    then record s { current = hostkey }
    else if text_eq l (codes "#nk principals")
    then record s { current = principals }
    else if is_empty (trim_space l)
    then s
    else add_line l s.current s

unfoldable pub probe_lines : List Text → Sections → Sections
unfolding probe_line
probe_lines [] s = s
probe_lines (l ∷ ls) s = probe_lines ls (probe_line l s)

abbrev first_line : List Text → Text
first_line [] = []
first_line (l ∷ ls) = l

abbrev pub no_sections : Sections
no_sections = record {
  current = before;
  passwd_lines = [];
  hostkey_lines = [];
  principals_lines = [];
}

-- ParseProbe; the Boolean is false for the error that there is no host key.
unfoldable pub parse_probe : Text → Host × Bool
unfolding probe_lines local_accounts trim_space split
parse_probe out =
    let s = probe_lines (split b'\n' out) no_sections in
    let key = trim_space (first_line s.hostkey_lines) in
    (
      record {
        accounts = local_accounts s.passwd_lines;
        host_key = key;
        principals = s.principals_lines;
      },
      not (is_empty key),
    )

-- Lines joined, with a newline behind the last one; no lines are the empty text.
unfoldable pub terminated : List Text → Text
unfolding join
terminated [] = []
terminated (i ∷ rest) = join b'\n' (i ∷ rest) ++ (b'\n' ∷ [])

-- renderPrincipals
unfoldable pub render_principals : List Text → Text
unfolding sort compact terminated
render_principals ids = terminated (compact (sort (keep (λ i. not (is_empty i)) ids)))
