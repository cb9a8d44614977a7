-- ===== src/Tests/SyncAll.antt =====
-- internal/client/login.go, internal/client/trust.go and internal/client/client.go at concrete
-- inputs: a sign-in, the trust of a server, and a whole sync.
use nk.Base.{true, false, [], ◌∷◌, Option, none, some}
use nk.Base.Text.{Text, codes}
use nk.Base.Clock.{zero_time}
use nk.State.{empty_config, empty_cache}
use nk.State.Disk.{Disk}
use nk.Client.Login.{Exchange, ticked}
use nk.Client.Login.Device.{decoded, SignIn}
use nk.Client.Trust.{advertised, Machine, confirm_server}
use nk.Client.Trust.Kept.{IsConfirmed, confirm_server-IsConfirmed}
use nk.Client.Sync.{answered, Attempt, Outside, Client, sync_all}
use nk.Client.Sync.Answer.{Ends}
use nk.Client.Sync.Fresh.{sync_all-Ends}
use nk.Tests.Data.{session, message, plain_case}

abbrev pub disk : Disk
disk = record { config_json = empty_config; cache_json = empty_cache }

abbrev scheme : Text → Option Text
scheme u = some (codes "https")

abbrev exchange : Exchange
exchange = record {
  answered = true;
  reply = some (record { access_token = codes "token"; expires_in = 3600; error = [] });
  nonce_fetched = true;
  wake = ticked;
}

abbrev pub sign_in : SignIn
sign_in = record {
  dpop = true;
  answer = decoded (record {
    device_code = codes "device";
    user_code = codes "ABCD";
    verification_uri = codes "https://nokku.example/device";
    verification_uri_complete = [];
    interval = 5;
  });
  exchanges = exchange ∷ [];
  clock = zero_time;
  config_ok = true;
  cache_ok = true;
}

abbrev pub machine : Machine
machine = record {
  parse_pin = λ p. some p;
  parse_bundle = λ b. none;
  bootstrap = λ api pin. some pin;
  dials = λ ca. true;
  advertised_by =
      λ api. advertised (record { pin = codes "sha256:1"; common_name = codes "Office" } ∷ []);
  system_trusts = λ api. true;
  terminal = true;
  trust_line = codes "yes\n";
  install_line = [];
  remove_line = [];
  installs = λ ca. false;
  uninstalls = λ ca. false;
  config_ok = true;
  cache_ok = true;
  case_tables = plain_case;
}

confirm_server-IsConfirmed_example :
    let r = confirm_server machine true session disk in
    IsConfirmed machine true session disk r.state r.disk r.error
confirm_server-IsConfirmed_example = confirm_server-IsConfirmed machine true session disk

abbrev pub attempt : Attempt
attempt = record {
  now = zero_time;
  sign_in = sign_in;
  sign_in_untrusted = false;
  response = answered message;
  synced_at = zero_time;
  removable = λ name. true;
  config_ok = true;
  cache_ok = true;
  configs_ok = true;
}

abbrev pub outside : Outside
outside = record {
  machine = machine;
  first = attempt;
  again = attempt;
  relogin = attempt;
  last = attempt;
}

abbrev pub client : Client
client = record { state = session; disk = disk; files = (codes "old-cert.pub", codes "old") ∷ [] }

sync_all-Ends_example :
    let r = sync_all scheme outside true client in
    Ends (attempt ∷ attempt ∷ attempt ∷ []) client r.client r.error
sync_all-Ends_example = sync_all-Ends scheme outside true client
