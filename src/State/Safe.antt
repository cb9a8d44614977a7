-- ===== src/State/Safe.antt =====
-- internal/state/map.go: what of the backend's answer may reach file paths, ssh files and the
-- terminal.
use nk.Base.{
  ℕ, ◌+◌, ◌≡◌, ◌↔◌, ◌⊎◌, inl, inr, true, false, ◌||◌, List, [], ◌∷◌, map, arith, All, keep, length,
  within, ◌==◌, Bool-cases,
}
use nk.Base.Text.{Text, is_control, is_empty}
use nk.State.{Target}
use nk.State.Access.{
  AccessMessage, plain, plain_all, canonical_from, uuid_char, canonical_uuid, valid_ids, map_target,
  target_ok, from_access,
}

-- A lowercase hexadecimal digit or a dash.
abbrev pub IsIdChar : ℕ → Type 0
IsIdChar c = ((within b'0' b'9' c || within b'a' b'f' c) || c == b'-') ≡ true

-- The places of the four dashes.
abbrev pub IsDashPlace : ℕ → Type 0
IsDashPlace i = (i ≡ 8) ⊎ (i ≡ 13) ⊎ (i ≡ 18) ⊎ (i ≡ 23)

-- From that place on, dashes stand at these places and nowhere else.
abbrev pub HasDashes : ℕ → Text → Type 0
HasDashes i [] = Unit
HasDashes i (c ∷ s) = ((c ≡ b'-') ↔ IsDashPlace i) × HasDashes (i + 1) s

abbrev pub IsId : Text → Type 0
IsId s = All IsIdChar s × (length s ≡ 36) × HasDashes 0 s

abbrev pub IsPlain : Text → Type 0
IsPlain s = All (λ c. is_control c ≡ false) s

-- What the rest of nk relies on when it writes a target into paths and ssh files.
pub record IsSafe (t : Target) : Type 0 where
  pub id_safe : IsId t.id
  pub ca_id_safe : IsId t.ca_id
  pub daemon_id_safe : (is_empty t.daemon_id ≡ true) ⊎ IsId t.daemon_id
  pub name_plain : IsPlain t.name
  pub endpoints_plain : All IsPlain t.endpoints
  pub usernames_plain : All IsPlain t.usernames

uuid_char-dash : (i c : ℕ) → uuid_char i c ≡ true → (c ≡ b'-') ↔ IsDashPlace i
unfolding uuid_char
uuid_char-dash i c h = (λ e. ground arith, λ e. ground arith)

canonical_from-IsId :
    (s : Text) (i : ℕ)
    → canonical_from i s ≡ true
    → All IsIdChar s × (i + length s ≡ 36) × HasDashes i s
unfolding canonical_from uuid_char
canonical_from-IsId [] i h = (tt, ground arith, tt)
canonical_from-IsId (c ∷ s) i h =
    let (chars, size, dashes) = canonical_from-IsId s (i + 1) (ground arith) in
    ((ground arith, chars), omega arith, (uuid_char-dash i c (ground arith), dashes))

canonical_uuid-IsId : (s : Text) → canonical_uuid s ≡ true → IsId s
unfolding canonical_uuid
canonical_uuid-IsId s h =
    let (chars, size, dashes) = canonical_from-IsId s 0 h in (chars, omega arith, dashes)

pub plain-IsPlain : (s : Text) → IsPlain (plain s)
unfolding plain
plain-IsPlain [] = tt
plain-IsPlain (c ∷ s) = elim (Bool-cases (is_control c)) [
  | inl h ↦ rw h (plain-IsPlain s)
  | inr h ↦ rw h (h, plain-IsPlain s)
]

plain_all-IsPlain : (values : List Text) → All IsPlain (plain_all values)
unfolding plain_all
plain_all-IsPlain [] = tt
plain_all-IsPlain (v ∷ vs) = (plain-IsPlain v, plain_all-IsPlain vs)

map_target-IsSafe : (t : Target) → target_ok t ≡ true → IsSafe (map_target t)
unfolding valid_ids map_target
map_target-IsSafe t h = record {
  id_safe = canonical_uuid-IsId t.id (ground arith);
  ca_id_safe = canonical_uuid-IsId t.ca_id (ground arith);
  daemon_id_safe = elim (Bool-cases (is_empty t.daemon_id)) [
    | inl e ↦ inl e
    | inr e ↦ inr (canonical_uuid-IsId t.daemon_id (ground arith))
  ];
  name_plain = plain-IsPlain t.name;
  endpoints_plain = plain_all-IsPlain t.endpoints;
  usernames_plain = plain_all-IsPlain t.usernames;
}

kept_targets-IsSafe : (ts : List Target) → All IsSafe (map map_target (keep target_ok ts))
kept_targets-IsSafe [] = tt
kept_targets-IsSafe (t ∷ ts) = elim (Bool-cases (target_ok t)) [
  | inl h ↦ rw h (map_target-IsSafe t h, kept_targets-IsSafe ts)
  | inr h ↦ rw h (kept_targets-IsSafe ts)
]

-- Every target of a snapshot has ids of 36 lowercase hexadecimal digits and dashes, with the dashes
-- exactly at places 8, 13, 18 and 23 (its daemon id may be empty instead), and a name, endpoints and accounts without control characters, whatever
-- the backend sent.
pub from_access-IsSafe : (res : AccessMessage) → All IsSafe (from_access res).targets
unfolding from_access
from_access-IsSafe res = kept_targets-IsSafe res.targets
