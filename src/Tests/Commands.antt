-- ===== src/Tests/Commands.antt =====
-- internal/cmd/cmd.go and internal/cmd/proxy.go at concrete inputs.
use nk.Base.{◌∷◌, Bool, refl, inl, true, false, [], Option, none, some, All}
use nk.Base.Text.{Text, codes}
use nk.Base.Clock.{Time, pos}
use nk.Ssh.Certs.{cert_name}
use nk.Ssh.Certs.Window.{at_second}
use nk.Client.Cert.{Write}
use nk.Client.Sync.{Client}
use nk.Cmd.Load.{Globals, Url, load_state}
use nk.Cmd.Load.Admitted.{IsAdmitted, load_state-IsAdmitted}
use nk.Cmd.Proxy.{ProxyOutside, begin, proxy}
use nk.Client.New.{Start}
use nk.Cmd.Proxy.Admits
use nk.Cmd.Proxy.Silent.{IsSilent, proxy-IsSilent}
use nk.Cmd.Proxy.Server.{DialsOwn, proxy-DialsOwn}
use nk.Cmd.Prepare.{Hook, IsPrepared, renew_cert, renew_cert-IsPrepared}
use nk.Tests.Data.{web_id, session}
use nk.Tests.Certs.{parse_key, marshal}
use nk.Tests.SyncAll.{disk, outside, client}

abbrev globals : Globals
globals = record {
  token = codes "nk_sa_1";
  ttl = pos 0;
  require_tpm = false;
  pin = [];
  api = codes "https://other.example";
  api_set = true;
  ca_file = [];
}

abbrev url : Text → Option Url
url api = some (record { scheme = codes "https"; hostname = codes "other.example" })

abbrev loopback : Text → Option Bool
loopback host = none

abbrev no_file : Text → Option Text
no_file path = none

abbrev any_bundle : Text → Bool
any_bundle b = true

load_state-IsAdmitted_example :
    IsAdmitted url loopback no_file any_bundle globals session
      (load_state url loopback no_file any_bundle globals session)
load_state-IsAdmitted_example =
    load_state-IsAdmitted url loopback no_file any_bundle globals session

abbrev write_file : Text → Option Text → Write
write_file c old = record { file = some c; written = true }

abbrev scheme : Text → Option Text
scheme u = none

abbrev now : Time
now = at_second 1_700_000_060

-- A minute into the life of the certificate, with a snapshot of that moment.
abbrev young : Client
young = record client {
  state = record session { cache = record session.cache { synced_at = now } };
  files = (cert_name web_id, codes "hour") ∷ [];
}

-- A machine whose key is the one on disk.
abbrev start : Start
start = record {
  signer = some (codes "key");
  host = some (codes "ann");
  key_written = true;
  removable = λ name. true;
  built = true;
}

abbrev proxied : ProxyOutside
proxied = record {
  now = now;
  start = start;
  key_file = some (codes "key ann@nokku");
  outside = outside;
  cache_file = record { value = session.cache; failed = false };
  mark_ok = true;
  signed = some (codes "hour");
  agent_ok = true;
}

proxy-IsAdmitted_example :
    let r = proxy parse_key marshal write_file scheme proxied web_id (codes "22") young in
    Admits.IsAdmitted parse_key marshal write_file scheme proxied
      (begin parse_key marshal write_file scheme proxied young)
      web_id
      r.state
      r.dialed
      r.error
proxy-IsAdmitted_example =
    Admits.proxy-IsAdmitted parse_key marshal write_file scheme proxied web_id (codes "22") young
      (λ c old. inl (refl, refl))

proxy-IsSilent_example :
    All
      (IsSilent parse_key marshal write_file scheme)
      (proxy parse_key marshal write_file scheme proxied web_id (codes "22") young).events
proxy-IsSilent_example =
    proxy-IsSilent parse_key marshal write_file scheme proxied web_id (codes "22") young

proxy-DialsOwn_example :
    let r = proxy parse_key marshal write_file scheme proxied web_id (codes "22") client in
    DialsOwn r.state r.dialed
proxy-DialsOwn_example =
    proxy-DialsOwn parse_key marshal write_file scheme proxied web_id (codes "22") client (inl refl)

abbrev hook : Hook
hook = record {
  now = now;
  start = start;
  key_file = some (codes "key ann@nokku");
  mark_ok = true;
  signed = some (codes "hour");
}

renew_cert-IsPrepared_example :
    let p = renew_cert parse_key marshal write_file hook young.state disk [] web_id in
    IsPrepared parse_key marshal write_file hook young.state disk [] web_id web_id p.error p
renew_cert-IsPrepared_example =
    renew_cert-IsPrepared parse_key marshal write_file hook young.state disk [] web_id
      (λ c old. inl (refl, refl))
