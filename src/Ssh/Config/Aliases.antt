-- ===== src/Ssh/Config/Aliases.antt =====
-- internal/ssh/config.go: the names that ssh reaches the targets by.
pub mod Apart
use nk.Base.{
  ℕ, ◌<◌, ◌≡◌, ◌≢◌, refl, sym, ap, ◌∙◌, ◌⊎◌, inl, inr, true, false, ◌||◌, List, [], ◌∷◌, ◌++◌, some,
  arith, ltb, ◌==◌, All, Member, all, two_kept, Bool-cases, All-Member, if◌then◌else◌,
}
use nk.Base.Text.{Text, codes, text_eq, text_eq_iff, text_eq_refl, CaseTables, to_lower}
use nk.Base.Lines.{Lacks}
use nk.State.{Target, State}
use nk.State.Safe.{IsSafe, IsId, IsIdChar}
use nk.Ssh.Own.{OwnBlock, claims}
use nk.Ssh.Config.{
  is_alnum, target_name, usable, same_name, name_count, alias_of, add_aliases, host_aliases,
  alias_at, Aliases,
}

-- A letter, a digit, a dash, an underscore or a slash.
abbrev pub IsAliasChar : ℕ → Type 0
IsAliasChar c = (is_alnum c || c == b'_' || c == b'-' || c == b'/') ≡ true

abbrev IsNameChar : ℕ → Type 0
IsNameChar c = (is_alnum c || c == b'_' || c == b'-') ≡ true

all-NameChar :
    (s : Text) → all (λ x. is_alnum x || x == b'_' || x == b'-') s ≡ true → All IsNameChar s
all-NameChar [] h = tt
all-NameChar (c ∷ s) h = (ground arith, all-NameChar s (ground arith))

target_name-chars : (s : Text) → target_name s ≡ true → All IsNameChar s
unfolding target_name
target_name-chars [] h = tt
target_name-chars (c ∷ s) h = (ground arith, all-NameChar s (ground arith))

usable-name : (t : Target) → usable t ≡ true → All IsNameChar t.name
unfolding usable
usable-name t h = target_name-chars t.name (ground arith)

name-alias : (s : Text) → All IsNameChar s → All IsAliasChar s
name-alias [] h = tt
name-alias (c ∷ s) (hc, h) = (ground arith, name-alias s h)

id-alias : (s : Text) → All IsIdChar s → All IsAliasChar s
id-alias [] h = tt
id-alias (c ∷ s) (hc, h) = (ground arith, id-alias s h)

prefixed-alias : (s : Text) → All IsAliasChar s → All IsAliasChar (codes "nokku/" ++ s)
prefixed-alias s h = (refl, (refl, (refl, (refl, (refl, (refl, h))))))

not_prefixed : (x name : Text) → All IsNameChar name → codes "nokku/" ++ x ≢ name
not_prefixed x name h e = slash (rw (← e) at h)
  where
    slash : ¬ (All IsNameChar (codes "nokku/" ++ x))
    slash (_, (_, (_, (_, (_, (f, _)))))) = cc

module _ (u : CaseTables) where
  lower_id : (s : Text) → All IsIdChar s → to_lower u s ≡ s
  unfolding to_lower
  lower_id [] h = refl
  lower_id (c ∷ s) (hc, h) = ground (arith, lower_id s h)

  lower_name-Lacks : (s : Text) → All IsNameChar s → Lacks b'/' (to_lower u s)
  unfolding to_lower
  lower_name-Lacks [] h = tt
  lower_name-Lacks (c ∷ s) (hc, h) = (ground arith, lower_name-Lacks s h)

  lower_prefixed : (s : Text) → to_lower u (codes "nokku/" ++ s) ≡ codes "nokku/" ++ to_lower u s
  unfolding to_lower
  lower_prefixed s = refl

  -- An alias holds letters, digits, dashes, underscores and slashes only: no blank, quote, wildcard
  -- or newline reaches the Host line.
  pub alias_of-chars :
      (ts : List Target) (own : List OwnBlock) (t : Target)
      → IsId t.id
      → usable t ≡ true
      → All IsAliasChar (alias_of u ts own t)
  unfolding alias_of
  alias_of-chars ts own t i h = elim (Bool-cases (ltb 1 (name_count u ts t.name))) [
    | inl many ↦ rw many (prefixed-alias t.id (id-alias t.id i.0))
    | inr one ↦ elim (Bool-cases (claims u own t.name)) [
      | inl c ↦ rw (one, c) (prefixed-alias t.name (name-alias t.name (usable-name t h)))
      | inr c ↦ rw (one, c) (name-alias t.name (usable-name t h))
    ]
  ]

  -- A target goes by its bare name only where the user's own config does not claim that name.
  pub alias_of-claims :
      (ts : List Target) (own : List OwnBlock) (t : Target)
      → usable t ≡ true
      → IsId t.id
      → alias_of u ts own t ≡ t.name
      → claims u own t.name ≡ false
  unfolding alias_of
  alias_of-claims ts own t h i e = elim (Bool-cases (claims u own t.name)) [
    | inr c ↦ c
    | inl c ↦ absurd (elim (Bool-cases (ltb 1 (name_count u ts t.name))) [
      | inl many ↦ not_prefixed t.id t.name (usable-name t h) (rw many at e)
      | inr one ↦ not_prefixed t.name t.name (usable-name t h) (rw (one, c) at e)
    ])
  ]
