-- ===== src/Cmd/Load.antt =====
-- internal/cmd/cmd.go: loadState. The URL and address parsers, the CA bundle's parser and the file
-- of --ca-file are arguments.
pub mod Admitted
use nk.Base.{
  ◌≡◌, refl, ◌⊎◌, inl, inr, Bool, true, false, ◌&&◌, ◌||◌, not, [], Option, none, some, arith,
  if◌then◌else◌, Bool-cases,
}
use nk.Base.Text.{Text, codes, text_eq, text_eq_iff, is_empty, has_prefix}
use nk.Base.Clock.{Duration}
use nk.State.{State, empty_config, empty_cache}

-- What the environment and the global flags give; `api_set` is cmd.IsSet("api").
pub record Globals : Type 0 where
  pub token : Text
  pub ttl : Duration
  pub require_tpm : Bool
  pub pin : Text
  pub api : Text
  pub api_set : Bool
  pub ca_file : Text

-- The parts of a parsed URL that are read.
pub record Url : Type 0 where
  pub scheme : Text
  pub hostname : Text

pub data LoadError : Type 0 where
  not_a_service_token not_encrypted unreadable_ca_file not_a_bundle : LoadError

pub data Load : Type 0 where
  refused : LoadError → Load
  loaded : State → Load

-- saPrefix
abbrev pub sa_prefix : Text
sa_prefix = codes "nk_sa_"

unfoldable pub with_flags : Globals → State → State
with_flags g s = record s { token = g.token; ttl = g.ttl; require_tpm = g.require_tpm; pin = g.pin }

-- Another server never gets this session or shows its targets.
unfoldable pub at_server : Globals → State → State
unfolding text_eq
at_server g s =
    if not (text_eq s.api_url g.api) && (is_empty s.api_url || g.api_set)
    then record s { config = record empty_config { api_url = g.api }; cache = empty_cache }
    else s

module _ (parse_url : Text → Option Url) (is_loopback : Text → Option Bool)
    (read_file : Text → Option Text) (is_bundle : Text → Bool) where
  -- The address that net.ParseIP reads, `none` for none, is on this machine.
  abbrev on_loopback : Option Bool → Bool
  on_loopback none = false
  on_loopback (some b) = b

  unfoldable pub plain_url : Option Url → Bool
  unfolding text_eq
  plain_url none = false
  plain_url (some u) =
      text_eq u.scheme (codes "http")
      && not (text_eq u.hostname (codes "localhost"))
      && not (on_loopback (is_loopback u.hostname))

  -- plainHTTP
  unfoldable pub plain_http : Text → Bool
  unfolding plain_url
  plain_http api = plain_url (parse_url api)

  unfoldable pub keep_bundle : State → Option Text → Load
  keep_bundle s none = refused unreadable_ca_file
  keep_bundle s (some ca) =
      if is_bundle ca
      then loaded (record s { config = record s.config { api_ca = ca } })
      else refused not_a_bundle

  unfoldable pub with_ca_file : Text → State → Load
  unfolding keep_bundle
  with_ca_file path s = if is_empty path then loaded s else keep_bundle s (read_file path)

  unfoldable pub checked_url : Text → State → Load
  unfolding plain_http with_ca_file
  checked_url path s = if plain_http s.api_url then refused not_encrypted else with_ca_file path s

  -- loadState; `stored` is what state.Load returns.
  unfoldable pub load_state : Globals → State → Load
  unfolding with_flags at_server checked_url has_prefix
  load_state g stored =
      if not (is_empty g.token) && not (has_prefix g.token sa_prefix)
      then refused not_a_service_token
      else checked_url g.ca_file (at_server g (with_flags g stored))
