-- ===== src/Ssh/Config/KnownHosts.antt =====
-- internal/ssh/config.go: the lines of the generated known_hosts.
use nk.Base.{
  ◌≡◌, refl, sym, inl, inr, true, false, ◌||◌, List, [], ◌∷◌, ◌++◌, keep, map, none, some, arith,
  ltb, ◌==◌, All, All-append, any, Bool-cases, Option-cases, append_assoc, if◌then◌else◌,
}
use nk.Base.Text.{Text, codes, split, trim_space}
use nk.Base.Lines.{unlines, unlines-append, split-unlines}
use nk.Base.Clock.{Time}
use nk.State.{Target, State, manual, ca_by_id, trusted_keys}
use nk.State.Safe.{IsSafe}
use nk.Ssh.Config.{
  header, safe_line, authority_lines, known_host, known_hosts_of, render_known_hosts,
}
use nk.Ssh.Config.OneLine.{OneLine, join_lines, id-OneLine, keyed, literal}

-- The lines of a target: its pinned key where it is manual, and otherwise each key of its CA that
-- is trusted; a key that could break out of its line is left out.
abbrev pub known_lines : Time → State → Target → List Text
known_lines now s t =
    if manual t
    then map (λ k. t.id ++ (b' ' ∷ k)) (keep safe_line (trim_space t.host_public_key ∷ []))
    else elim (ca_by_id s t.ca_id) [
      | none ↦ []
      | some ca ↦
          map (λ k. codes "@cert-authority " ++ (t.id ++ (b' ' ∷ k)))
            (keep safe_line (trusted_keys now ca))
    ]

abbrev pub all_known_lines : Time → State → List Target → List Text
all_known_lines now s [] = []
all_known_lines now s (t ∷ ts) = known_lines now s t ++ all_known_lines now s ts

not_any-OneLine : (k : Text) → any (λ c. ltb c 0x20 || c == 0x7f) k ≡ false → OneLine k
not_any-OneLine [] h = tt
not_any-OneLine (c ∷ k) h = (ground arith, not_any-OneLine k (ground arith))

safe_line-OneLine : (k : Text) → safe_line k ≡ true → OneLine k
unfolding safe_line
safe_line-OneLine k h = not_any-OneLine k (ground arith)

authority_lines-unlines :
    (id : Text) (ks : List Text)
    → authority_lines id ks
      ≡ unlines (map (λ k. codes "@cert-authority " ++ (id ++ (b' ' ∷ k))) (keep safe_line ks))
unfolding authority_lines
authority_lines-unlines id [] = refl
authority_lines-unlines id (k ∷ ks) = elim (Bool-cases (safe_line k)) [
  | inl h ↦ rw (h, authority_lines-unlines id ks) (simp append_assoc)
  | inr h ↦ rw (h, authority_lines-unlines id ks)
]

known_host-unlines :
    (now : Time) (s : State) (t : Target) → known_host now s t ≡ unlines (known_lines now s t)
unfolding known_host
known_host-unlines now s t = elim (Bool-cases (manual t)) [
  | inl m ↦ rw m (elim (Bool-cases (safe_line (trim_space t.host_public_key))) [
    | inl h ↦ rw h (simp append_assoc)
    | inr h ↦ rw h
  ])
  | inr m ↦ rw m (elim (Option-cases (ca_by_id s t.ca_id)) [
    | inl e ↦ rw e
    | inr (ca, e) ↦ rw e (authority_lines-unlines t.id (trusted_keys now ca))
  ])
]

known_hosts_of-unlines :
    (now : Time) (s : State) (ts : List Target)
    → known_hosts_of now s ts ≡ unlines (all_known_lines now s ts)
unfolding known_hosts_of
known_hosts_of-unlines now s [] = refl
known_hosts_of-unlines now s (t ∷ ts) =
    rw (known_host-unlines now s t, known_hosts_of-unlines now s ts)
      (sym (unlines-append (known_lines now s t) (all_known_lines now s ts)))

keep-OneLine :
    (f : Text → Text) (ks : List Text)
    → ((k : Text) → OneLine k → OneLine (f k))
    → All OneLine (map f (keep safe_line ks))
keep-OneLine f [] h = tt
keep-OneLine f (k ∷ ks) h = elim (Bool-cases (safe_line k)) [
  | inl e ↦ rw e (h k (safe_line-OneLine k e), keep-OneLine f ks h)
  | inr e ↦ rw e (keep-OneLine f ks h)
]

known_lines-OneLine :
    (now : Time) (s : State) (t : Target) → IsSafe t → All OneLine (known_lines now s t)
known_lines-OneLine now s t safe = elim (Bool-cases (manual t)) [
  | inl m ↦
      rw m (keep-OneLine (λ k. t.id ++ (b' ' ∷ k)) (trim_space t.host_public_key ∷ []) own_key)
  | inr m ↦ rw m (elim (Option-cases (ca_by_id s t.ca_id)) [
    | inl e ↦ rw e tt
    | inr (ca, e) ↦ rw e (
        keep-OneLine (λ k. codes "@cert-authority " ++ (t.id ++ (b' ' ∷ k))) (trusted_keys now ca)
          (λ k h. keyed "@cert-authority " (t.id ++ (b' ' ∷ k)) refl (own_key k h)))
  ])
]
  where
    own_key : (k : Text) → OneLine k → OneLine (t.id ++ (b' ' ∷ k))
    own_key k h = join_lines t.id (b' ' ∷ k) (id-OneLine t.id safe.id_safe.0) (refl, h)

all_known_lines-OneLine :
    (now : Time) (s : State) (ts : List Target)
    → All IsSafe ts
    → All OneLine (all_known_lines now s ts)
all_known_lines-OneLine now s [] h = tt
all_known_lines-OneLine now s (t ∷ ts) (ht, h) =
    All-append OneLine (known_lines now s t) (all_known_lines now s ts)
      (known_lines-OneLine now s t ht) (all_known_lines-OneLine now s ts h)

-- The generated known_hosts of a safe snapshot consists of exactly the header and, target by
-- target, one line for its pinned host key or for each trusted key of its CA, always scoped to the
-- target's id; a key with a control character is left out, and no key adds a line of its own.
pub render_known_hosts-lines :
    (now : Time) (s : State)
    → All IsSafe s.targets
    → split b'\n' (render_known_hosts now s)
      ≡ header ++ (all_known_lines now s s.targets ++ ([] ∷ []))
unfolding render_known_hosts
render_known_hosts-lines now s safe = rw (known_hosts_of-unlines now s s.targets) (
    split-unlines (header ++ all_known_lines now s s.targets) (
      literal "# Managed by Nokku. nk regenerates this file, do not edit it." refl,
      (tt, all_known_lines-OneLine now s s.targets safe),
    ))
