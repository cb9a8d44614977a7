-- ===== src/Manual/Accounts.antt =====
-- internal/manual/manual.go: which accounts a probe reports.
use nk.Base.{ℕ, ◌≤◌, ◌≡◌, ◌≢◌, ◌⊎◌, Bool, true, false, List, [], ◌∷◌, some, All, Member}
use nk.Base.Text.{Text, codes, has_suffix, split}
use nk.Manual.{is_name_char, atoi}

-- No dot and no dash in front, and letters, digits, `_`, `-` and `.` only.
abbrev pub IsSafeName : Text → Type 0
IsSafeName [] = ⊥
IsSafeName (c ∷ s) = (c ≢ b'.') × (c ≢ b'-') × All (λ (x : ℕ). is_name_char x ≡ true) (c ∷ s)

-- A shell that ends in none of these refuses no login.
abbrev pub IsLoginShell : Text → Type 0
IsLoginShell shell =
    (has_suffix shell (codes "nologin") ≡ false)
    × (has_suffix shell (codes "false") ≡ false)
    × (has_suffix shell (codes "sync") ≡ false)

-- The fields of a line of passwd that lets a human log in: a safe name, a number of 0 or at least
-- 1000 as the uid, and a login shell.
pub record IsLogin (fields : List Text) (name : Text) : Type 0 where
  pub pw : Text
  pub uid : Text
  pub gid : Text
  pub gecos : Text
  pub home : Text
  pub shell : Text
  pub more : List Text
  pub seven : fields ≡ name ∷ pw ∷ uid ∷ gid ∷ gecos ∷ home ∷ shell ∷ more
  pub safe : IsSafeName name
  pub negative : Bool
  pub number : ℕ
  pub uid_read : atoi uid ≡ some (negative, number)
  pub uid_human : (number ≡ 0) ⊎ ((negative ≡ false) × (1000 ≤ number))
  pub shell_login : IsLoginShell shell

-- The account stands in a login line of the file.
abbrev pub Listed : List Text → Text → Type 0
Listed passwd name = (line : Text) × Member line passwd × IsLogin (split b':' line) name
