-- ===== src/Ssh/Command.antt =====
-- internal/ssh/config.go: nkCommand, which names this nk in the generated file. The paths of the
-- operating system are arguments.
use nk.Base.{
  ℕ, ◌≡◌, ◌≢◌, refl, ◌⊎◌, inl, inr, Bool, true, false, All, ◌&&◌, ◌||◌, [], ◌∷◌, ◌++◌, Option, none,
  some, any, ◌==◌, if◌then◌else◌, Bool-cases, arith,
}
use nk.Base.Text.{Text, codes}
use nk.Ssh.Config.OneLine.{OneLine, join_lines}

-- What exec.LookPath finds, and whether it is absolute and this binary.
pub record Found : Type 0 where
  pub path : Text
  pub is_abs : Bool
  pub is_same : Bool

-- strings.ContainsAny(bin, "\"$`%\\\n")
abbrev pub is_unsafe : ℕ → Bool
is_unsafe c = c == b'"' || c == b'$' || c == b'`' || c == b'%' || c == b'\\' || c == b'\n'

abbrev pub is_blank : ℕ → Bool
is_blank c = c == b' ' || c == b'\t'

unfoldable pub chosen : Text → Option Found → Text
chosen self none = self
chosen self (some f) = if f.is_abs && f.is_same then f.path else self

unfoldable pub quote_command : Text → Text
quote_command bin =
    if any is_unsafe bin
    then codes "nk"
    else if any is_blank bin
    then b'"' ∷ (bin ++ (b'"' ∷ []))
    else bin

-- nkCommand; `self` is os.Executable's answer.
unfoldable pub nk_command : Option Text → Option Found → Text
unfolding chosen quote_command
nk_command none found = codes "nk"
nk_command (some self) found = quote_command (chosen self found)

safe-OneLine : (bin : Text) → any is_unsafe bin ≡ false → OneLine bin
safe-OneLine [] h = tt
safe-OneLine (c ∷ s) h = (ground arith, safe-OneLine s (ground arith))

-- A character that may stand in a path between double quotes: none of those that end or expand
-- them in a shell, no `%`, which ssh expands, and no newline.
abbrev pub IsQuotable : ℕ → Type 0
IsQuotable c = (c ≢ b'"') × (c ≢ b'$') × (c ≢ b'`') × (c ≢ b'%') × (c ≢ b'\\') × (c ≢ b'\n')

quotable : (bin : Text) → any is_unsafe bin ≡ false → All IsQuotable bin
quotable [] h = tt
quotable (c ∷ s) h = (
  (
    λ e. ground arith,
    λ e. ground arith,
    λ e. ground arith,
    λ e. ground arith,
    λ e. ground arith,
    λ e. ground arith,
  ),
  quotable s (ground arith),
)

blankless : (bin : Text) → any is_blank bin ≡ false → All (λ c. (c ≢ b' ') × (c ≢ b'\t')) bin
blankless [] h = tt
blankless (c ∷ s) h = ((λ e. ground arith, λ e. ground arith), blankless s (ground arith))

-- The command: nk as found on the PATH, or the path of a binary, which a pair of double quotes can
-- hold, in quotes unless it has no blanks.
abbrev pub IsCommand : Option Text → Option Found → Text → Type 0
IsCommand self found command =
    (command ≡ codes "nk")
    ⊎ ((bin : Text) × All IsQuotable bin
        × ((All (λ c. (c ≢ b' ') × (c ≢ b'\t')) bin × (command ≡ bin))
            ⊎ (command ≡ b'"' ∷ (bin ++ (b'"' ∷ []))))
        × ((self ≡ some bin)
            ⊎ ((f : Found) × (found ≡ some f) × (f.path ≡ bin) × (f.is_same ≡ true))))

chosen-IsFound :
    (self : Text) (found : Option Found)
    → (some self ≡ some (chosen self found))
      ⊎ ((f : Found) × (found ≡ some f) × (f.path ≡ chosen self found) × (f.is_same ≡ true))
unfolding chosen
chosen-IsFound self none = inl refl
chosen-IsFound self (some f) = elim (Bool-cases f.is_abs) [
  | inr e ↦ simp e (inl refl)
  | inl e ↦ elim (Bool-cases f.is_same) [
    | inr g ↦ simp (e, g) (inl refl)
    | inl g ↦ inr (f, refl, simp (e, g) refl, g)
  ]
]

quote_command-OneLine : (bin : Text) → OneLine (quote_command bin)
unfolding quote_command
quote_command-OneLine bin = elim (Bool-cases (any is_unsafe bin)) [
  | inl e ↦ rw e (refl, (refl, tt))
  | inr e ↦ elim (Bool-cases (any is_blank bin)) [
    | inr g ↦ rw (e, g) (safe-OneLine bin e)
    | inl g ↦ rw (e, g) (refl, join_lines bin (b'"' ∷ []) (safe-OneLine bin e) (refl, tt))
  ]
]

quote_command-IsCommand :
    (self : Option Text) (found : Option Found) (bin : Text)
    → (self ≡ some bin) ⊎ ((f : Found) × (found ≡ some f) × (f.path ≡ bin) × (f.is_same ≡ true))
    → IsCommand self found (quote_command bin)
unfolding quote_command
quote_command-IsCommand self found bin h = elim (Bool-cases (any is_unsafe bin)) [
  | inl e ↦ rw e (inl refl)
  | inr e ↦ elim (Bool-cases (any is_blank bin)) [
    | inr g ↦ rw (e, g) (inr (bin, quotable bin e, inl (blankless bin g, refl), h))
    | inl g ↦ rw (e, g) (inr (bin, quotable bin e, inr refl, h))
  ]
]

-- The command that the generated file runs is nk, or this binary's path, as it runs or as the PATH
-- finds it, without a double quote, `$`, a backquote, `%`, a backslash or a newline, and between
-- double quotes unless it has no blank and no tab; and it is one line.
pub nk_command-IsCommand :
    (self : Option Text) (found : Option Found)
    → IsCommand self found (nk_command self found) × OneLine (nk_command self found)
unfolding nk_command
nk_command-IsCommand none found = (inl refl, (refl, (refl, tt)))
nk_command-IsCommand (some self) found =
    let bin = chosen self found in
    (
      quote_command-IsCommand (some self) found bin (chosen-IsFound self found),
      quote_command-OneLine bin,
    )
