-- ===== src/Tests/Data.antt =====
-- Two targets, a manual one and one of a daemon, and the snapshot that holds them.
use nk.Base.{true, false, [], ◌∷◌, Option, none}
use nk.Base.Text.{Text, codes, CaseTables}
use nk.Base.Clock.{zero_time, pos}
use nk.State.{Target, Ca, State, empty_cache, empty_config}
use nk.State.Access.{AccessMessage, no_subject, from_access}

abbrev pub plain_case : CaseTables
plain_case = record { lower = λ c. c; fold = λ c. c }

abbrev pub web_id : Text
web_id = codes "00000000-0000-4000-8000-000000000001"

abbrev pub db_id : Text
db_id = codes "00000000-0000-4000-8000-000000000002"

abbrev pub ca_id : Text
ca_id = codes "00000000-0000-4000-8000-00000000000a"

abbrev pub web : Target
web = record {
  id = web_id;
  ca_id = ca_id;
  daemon_id = [];
  name = codes "web";
  endpoints = codes "10.0.0.5" ∷ [];
  usernames = codes "root" ∷ [];
  host_public_key = codes "ssh-ed25519 AAAA";
  metadata = [];
}

abbrev pub db : Target
db = record web {
  id = db_id;
  daemon_id = codes "00000000-0000-4000-8000-0000000000dd";
  name = codes "db";
  endpoints = codes "10.0.0.6" ∷ [];
  usernames = codes "deploy" ∷ [];
  host_public_key = [];
}

abbrev pub ca : Ca
ca = record {
  id = ca_id;
  name = codes "main";
  public_key = codes "ssh-ed25519 CA";
  default = true;
  rotated_at = zero_time;
  previous_public_key = [];
  previous_trusted_until = zero_time;
}

abbrev pub message : AccessMessage
message = record {
  subject = no_subject;
  certificate_authorities =
      (record {
        id = ca_id;
        name = codes "main";
        public_key = codes "ssh-ed25519 CA";
        is_default = true;
        is_active = true;
        not_before = none;
        previous_public_key = [];
        previous_trusted_until = none;
      })
      ∷ [];
  targets = web ∷ db ∷ record web { id = codes "../x" } ∷ [];
}

abbrev pub session : State
session = record {
  config = record empty_config { api_url = codes "https://nokku.example" };
  cache = record empty_cache { cas = ca ∷ []; targets = web ∷ db ∷ [] };
  token = [];
  ttl = pos 0;
  require_tpm = false;
  pin = [];
}

-- The state behind a sync.
abbrev pub synced : State
synced = record session { cache = from_access message }

-- A port after the last colon, as far as these endpoints need it.
abbrev pub no_port : Text → Option (Text × Text)
no_port ep = none

abbrev pub join_port : Text → Text → Text
join_port host port = host
