-- ===== src/State.antt =====
-- internal/state/state.go: the persisted session and the offline access snapshot.
pub mod Access
pub mod Disk
pub mod Safe
use nk.Base.{
  ℕ, Bool, true, false, ◌&&◌, ◌||◌, not, List, [], ◌∷◌, ◌++◌, Option, none, some, ltb, ◌==◌, find?,
  if◌then◌else◌,
}
use nk.Base.Text.{Text, codes, text_eq, is_empty, trim_space}
use nk.Base.Clock.{Time, Duration, zero_time, sub, ltb_ℤ}

pub record User : Type 0 where
  pub id : Text
  pub name : Text
  pub email : Text

pub record ServiceAccount : Type 0 where
  pub id : Text
  pub name : Text

pub record Ca : Type 0 where
  pub id : Text
  pub name : Text
  pub public_key : Text
  pub default : Bool
  pub rotated_at : Time
  pub previous_public_key : Text
  pub previous_trusted_until : Time

-- CA.TrustedKeys; `now` is the clock's reading.
unfoldable pub trusted_keys : Time → Ca → List Text
unfolding trim_space
trusted_keys now ca =
    let prev = trim_space ca.previous_public_key in
    trim_space ca.public_key
    ∷ (if not (is_empty prev) && ltb now ca.previous_trusted_until then prev ∷ [] else [])

pub record Target : Type 0 where
  pub id : Text
  pub ca_id : Text
  pub daemon_id : Text
  pub name : Text
  pub endpoints : List Text
  pub usernames : List Text
  pub host_public_key : Text
  pub metadata : List (Text × Text)

-- Target.Manual
unfoldable pub manual : Target → Bool
manual t = is_empty t.daemon_id

-- A read of a Go map of texts: a missing key reads as the empty text.
unfoldable pub text_at : List (Text × Text) → Text → Text
unfolding text_eq
text_at [] k = []
text_at ((j, v) ∷ m) k = if text_eq j k then v else text_at m k

pub record Config : Type 0 where
  pub api_url : Text
  pub api_ca : Text
  pub api_ca_installed : Bool
  pub session_token : Text
  pub session_expires_at : Time

pub record Cache : Type 0 where
  pub server : Text
  pub synced_at : Time
  pub failed_at : Time
  pub user : Option User
  pub service_account : Option ServiceAccount
  pub cas : List Ca
  pub targets : List Target

abbrev pub empty_config : Config
empty_config = record {
  api_url = [];
  api_ca = [];
  api_ca_installed = false;
  session_token = [];
  session_expires_at = zero_time;
}

abbrev pub empty_cache : Cache
empty_cache = record {
  server = [];
  synced_at = zero_time;
  failed_at = zero_time;
  user = none;
  service_account = none;
  cas = [];
  targets = [];
}

pub record State : Type 0 where
  pub config : Config
  pub open config use *
  pub cache : Cache
  pub open cache use *
  pub token : Text
  pub ttl : Duration
  pub require_tpm : Bool
  pub pin : Text

-- State.SyncFailedWithin
unfoldable pub sync_failed_within : Time → State → Duration → Bool
unfolding sub
sync_failed_within now s d = ltb_ℤ (sub now s.failed_at) d

-- State.IsServiceAccount
unfoldable pub is_service_account : State → Bool
is_service_account s = not (is_empty s.token)

-- State.SessionValid
unfoldable pub session_valid : Time → State → Bool
unfolding is_service_account
session_valid now s =
    if is_service_account s
    then true
    else if is_empty s.session_token
    then false
    else s.session_expires_at == zero_time || ltb now s.session_expires_at

abbrev is_some {ℓ} : {A : Type ℓ} → Option A → Bool
is_some none = false
is_some (some a) = true

abbrev is_nil {ℓ} : {A : Type ℓ} → List A → Bool
is_nil [] = true
is_nil (x ∷ xs) = false

-- State.HasCachedData
unfoldable pub has_cached_data : State → Bool
has_cached_data s = not (is_nil s.targets) && (is_some s.user || is_some s.service_account)

-- State.TargetByID and State.CAByID: the first entry with that id. The pointer that they return is
-- the entry's value, since no caller writes through it.
unfoldable pub target_by_id : State → Text → Option Target
unfolding text_eq
target_by_id s i = find? (λ (t : Target). text_eq t.id i) s.targets

unfoldable pub ca_by_id : State → Text → Option Ca
unfolding text_eq
ca_by_id s i = find? (λ (c : Ca). text_eq c.id i) s.cas

module _ (parse_rfc3339 : Text → Option Time) where
  -- Target.LastManualSync: the zero time where the metadata does not parse.
  unfoldable pub last_manual_sync : Target → Time
  unfolding text_at
  last_manual_sync t = elim (parse_rfc3339 (text_at t.metadata (codes "last_manual_sync"))) [
    | none ↦ zero_time
    | some at ↦ at
  ]

  -- Target.NeedsSync; the CA is `none` for nil.
  unfoldable pub needs_sync : Target → Option Ca → Bool
  unfolding manual last_manual_sync
  needs_sync t none = false
  needs_sync t (some ca) = manual t && ltb (last_manual_sync t) ca.rotated_at
