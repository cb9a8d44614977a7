-- ===== src/Cmd/Proxy.antt =====
-- internal/cmd/proxy.go: nk proxy and nk prepare, which ssh runs, over the cached snapshot, the sync
-- and the certificate. The clock is read once.
pub mod Admits
pub mod Silent
pub mod Server
use nk.Base.{
  ℕ, ◌*◌, ◌≡◌, Bool, true, false, ◌&&◌, ◌||◌, not, List, [], ◌∷◌, ◌++◌, Option, none, some,
  if◌then◌else◌,
}
use nk.Base.Text.{Text, is_empty}
use nk.Base.Clock.{Time, Duration, pos, sub, ltb_ℤ, second, minute}
use nk.State.{State, Target, Ca, Cache, target_by_id, ca_by_id, sync_failed_within}
use nk.State.Disk.{Disk, Loaded, mark_sync_failed}
use nk.Ssh.Certs.{PublicKey, Files, cert_valid, cert_covers, cert_fresh}
use nk.Ssh.Keys.{pub_key}
use nk.Client.Cert.{Write, CertError, ensure_cert}
use nk.Client.New.{Start, Local, is_made, backend, cert_at}
use nk.Client.Fallback.{Fallback, sync_or_cache}
use nk.Client.Sync.{Outside, Client, Event, SyncError, SyncRun, sync_all}

-- proxyFreshFor
abbrev pub proxy_fresh_for : Duration
proxy_fresh_for = pos minute

-- syncRetryAfter
abbrev pub sync_retry_after : Duration
sync_retry_after = pos (30 * second)

-- `no_client` is an error of client.New, also where the source wraps it as a missing certificate.
pub data ProxyError : Type 0 where
  usage no_client sync_gave_up no_access no_authority no_agent no_target : ProxyError
  no_certificate : CertError → ProxyError

-- Where a connection goes: to the target, with the certificate on disk and --relay.
pub record Dialed : Type 0 where
  pub target : Target
  pub authority : Ca
  pub certificate : Option Text

-- What nk proxy asks of the client before it dials: a sync with its events, and EnsureCert with its
-- end.
pub data ProxyEvent : Type 0 where
  synced : List Event → ProxyEvent
  certificate_requested : Option CertError → ProxyEvent

pub record ProxyRun : Type 0 where
  pub events : List ProxyEvent
  pub state : State
  pub dialed : Option Dialed
  pub error : Option ProxyError

-- What nk proxy gets from outside: what client.New needs and the public key's file, the sync with its
-- cache file, the certificate that the backend signs, and whether the agent runs.
pub record ProxyOutside : Type 0 where
  pub now : Time
  pub start : Start
  pub key_file : Option Text
  pub outside : Outside
  pub cache_file : Loaded Cache
  pub mark_ok : Bool
  pub signed : Option Text
  pub agent_ok : Bool

abbrev pub proxy_stop : ProxyError → State → ProxyRun
proxy_stop e s = record { events = []; state = s; dialed = none; error = some e }

abbrev pub proxy_behind : List ProxyEvent → ProxyRun → ProxyRun
proxy_behind es r = record r { events = es ++ r.events }

-- `time.Since(s.SyncedAt) > proxyFreshFor && !s.SyncFailedWithin(syncRetryAfter)`
unfoldable pub stale : Time → State → Bool
unfolding sync_failed_within sub
stale now s =
    ltb_ℤ proxy_fresh_for (sub now s.synced_at) && not (sync_failed_within now s sync_retry_after)

abbrev pub is_none {ℓ} : {A : Type ℓ} → Option A → Bool
is_none none = true
is_none (some a) = false

abbrev pub succeeded : Option SyncError → Bool
succeeded e = is_none e

module _ (parse_key : Text → Option PublicKey) (marshal : PublicKey → Text)
    (write_file : Text → Option Text → Write) (parse_scheme : Text → Option Text) where
  -- The end of the action: the agent, and the call of ssh.Proxy with the certificate that is on disk
  -- then. What that call does, the relay's use of backend included, is no part of this.
  unfoldable pub dial : ProxyOutside → State → Target → Ca → Option Text → ProxyRun
  dial o s t ca cert =
      if o.agent_ok
      then record {
        events = [];
        state = s;
        dialed = some (record { target = t; authority = ca; certificate = cert });
        error = none;
      }
      else proxy_stop no_agent s

  unfoldable pub renewed :
      ProxyOutside → State → Target → Ca → Option Text × Option CertError → ProxyRun
  unfolding dial
  renewed o s t ca (cert, none) = dial o s t ca cert
  renewed o s t ca (cert, some e) = proxy_stop (no_certificate e) s

  -- The certificate: renewed where it is not valid, and where it lacks an account if that works.
  unfoldable pub certify : ProxyOutside → State → Local → Target → Ca → ProxyRun
  unfolding renewed dial cert_valid cert_covers ensure_cert backend cert_at pub_key
  certify o s l t ca =
      let file = cert_at t.id l.files in
      let b = backend o.start l in
      let found = cert_at t.id b.files in
      let ensured =
        ensure_cert parse_key marshal write_file o.now s found t ca
          (pub_key o.start.removable b.key_file) o.signed in
      if not (cert_valid parse_key marshal o.now file ca (pos 0))
      then (if is_made b.made
          then proxy_behind (certificate_requested ensured.1 ∷ []) (renewed o s t ca ensured)
          else proxy_stop no_client s)
      else if not (cert_covers parse_key marshal file t)
      then (if is_made b.made
          then proxy_behind (certificate_requested ensured.1 ∷ []) (dial o s t ca ensured.0)
          else dial o s t ca found)
      else dial o s t ca file

  unfoldable pub with_authority : ProxyOutside → State → Local → Target → Option Ca → ProxyRun
  unfolding certify
  with_authority o s l t none = proxy_stop no_authority s
  with_authority o s l t (some ca) = certify o s l t ca

  unfoldable pub with_target : ProxyOutside → State → Local → Option Target → ProxyRun
  unfolding with_authority ca_by_id
  with_target o s l none = proxy_stop no_access s
  with_target o s l (some t) = with_authority o s l t (ca_by_id s t.ca_id)

  unfoldable pub after_sync : ProxyOutside → Text → Local → List Event → Fallback → ProxyRun
  unfolding with_target target_by_id
  after_sync o id l es f = proxy_behind (synced es ∷ []) (
      if f.gave_up
      then proxy_stop sync_gave_up f.state
      else with_target o f.state l (target_by_id f.state id))

  -- SyncOrCache under ssh, behind backend
  unfoldable pub sync_first : ProxyOutside → Text → Local → Client → ProxyRun
  unfolding after_sync sync_or_cache sync_all
  sync_first o id l c =
      let r = sync_all parse_scheme o.outside false (record c { files = l.files }) in
      after_sync o id (record l { files = r.client.files }) r.events
        (sync_or_cache o.now (succeeded r.error) o.cache_file o.mark_ok r.client.state
          r.client.disk)

  unfoldable pub with_backend : ProxyOutside → Text → Local → Client → ProxyRun
  unfolding sync_first
  with_backend o id b c =
      if is_made b.made then sync_first o id b c else proxy_stop no_client c.state

  -- What is on disk when the command begins.
  abbrev pub begin : ProxyOutside → Client → Local
  begin o c = record { key_file = o.key_file; files = c.files; made = none }

  -- The action of proxyCMD behind loadState
  unfoldable pub proxy : ProxyOutside → Text → Text → Client → ProxyRun
  unfolding stale target_by_id with_backend with_target backend
  proxy o id port c =
      if is_empty id || is_empty port
      then proxy_stop usage c.state
      else if stale o.now c.state || is_none (target_by_id c.state id)
      then with_backend o id (backend o.start (begin o c)) c
      else with_target o c.state (begin o c) (target_by_id c.state id)
