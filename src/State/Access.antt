-- ===== src/State/Access.antt =====
-- internal/state/map.go: the backend's answer becomes a snapshot.
-- The messages are those of the generated protobuf package: a record holds what its getters return.
use nk.Base.{
  ℕ, ◌+◌, Bool, ◌&&◌, ◌||◌, not, List, [], ◌∷◌, map, Option, none, some, keep, all, ◌==◌, within,
  if◌then◌else◌,
}
use nk.Base.Text.{Text, is_empty, is_control}
use nk.Base.Clock.{Time, zero_time}
use nk.State.{User, ServiceAccount, Ca, Target, Cache, empty_cache}

pub data Subject : Type 0 where
  user_subject : User → Subject
  service_account_subject : ServiceAccount → Subject
  no_subject : Subject

pub record CaMessage : Type 0 where
  pub id : Text
  pub name : Text
  pub public_key : Text
  pub is_default : Bool
  pub is_active : Bool
  pub not_before : Option Time
  pub previous_public_key : Text
  pub previous_trusted_until : Option Time

pub record AccessMessage : Type 0 where
  pub subject : Subject
  pub certificate_authorities : List CaMessage
  pub targets : List Target

-- plain: control characters are dropped.
unfoldable pub plain : Text → Text
unfolding is_control
plain s = keep (λ c. not (is_control c)) s

-- plainAll
unfoldable pub plain_all : List Text → List Text
unfolding plain
plain_all values = map plain values

-- A character of the canonical form of a UUID, at its position.
unfoldable pub uuid_char : ℕ → ℕ → Bool
uuid_char i c =
    if i == 8 || i == 13 || i == 18 || i == 23
    then c == b'-'
    else within b'0' b'9' c || within b'a' b'f' c

unfoldable pub canonical_from : ℕ → Text → Bool
unfolding uuid_char
canonical_from i [] = i == 36
canonical_from i (c ∷ s) = uuid_char i c && canonical_from (i + 1) s

-- `uuid.Parse` takes `id` and `String` prints it back as it is: the canonical form.
unfoldable pub canonical_uuid : Text → Bool
unfolding canonical_from
canonical_uuid id = canonical_from 0 id

-- validIDs
unfoldable pub valid_ids : List Text → Bool
unfolding canonical_uuid
valid_ids ids = all canonical_uuid ids

-- MapTarget
unfoldable pub map_target : Target → Target
unfolding plain plain_all
map_target t = record t {
  name = plain t.name;
  endpoints = plain_all t.endpoints;
  usernames = plain_all t.usernames;
}

-- one round of SSHCAs
unfoldable pub map_ca : CaMessage → Ca
unfolding plain
map_ca m = record {
  id = m.id;
  name = plain m.name;
  public_key = m.public_key;
  default = m.is_default;
  rotated_at = elim m.not_before [ none ↦ zero_time | some t ↦ t ];
  previous_public_key = elim m.previous_trusted_until [
    | none ↦ []
    | some t ↦ m.previous_public_key
  ];
  previous_trusted_until = elim m.previous_trusted_until [ none ↦ zero_time | some t ↦ t ];
}

-- SSHCAs
unfoldable pub ssh_cas : List CaMessage → List Ca
unfolding valid_ids map_ca
ssh_cas cas = map map_ca (keep (λ m. valid_ids (m.id ∷ [])) cas)

abbrev pub target_ok : Target → Bool
target_ok t = not (
    not (valid_ids (t.id ∷ t.ca_id ∷ []))
    || (not (is_empty t.daemon_id) && not (valid_ids (t.daemon_id ∷ []))))

-- the switch of FromAccess
unfoldable pub with_subject : Subject → Cache → Cache
unfolding plain
with_subject (user_subject u) c = record c {
  user = some (record u { name = plain u.name; email = plain u.email });
}
with_subject (service_account_subject sa) c = record c {
  service_account = some (record sa { name = plain sa.name });
}
with_subject no_subject c = c

-- FromAccess
unfoldable pub from_access : AccessMessage → Cache
unfolding with_subject ssh_cas valid_ids map_target
from_access res = record (with_subject res.subject empty_cache) {
  cas = ssh_cas res.certificate_authorities;
  targets = map map_target (keep target_ok res.targets);
}
