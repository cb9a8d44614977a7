-- ===== src/Client/Sync.antt =====
-- internal/client/client.go: Sync, sync and Logout, over the trust of the server, the sign-in, the
-- backend's answer, the certificate files and the writes.
pub mod Answer
pub mod Fresh
pub mod Quiet
use nk.Base.{
  ◌≡◌, refl, Bool, true, false, ◌&&◌, ◌||◌, not, List, [], ◌∷◌, ◌++◌, Option, none, some,
  if◌then◌else◌,
}
use nk.Base.Text.{Text, is_empty}
use nk.Base.Clock.{Time, zero_time}
use nk.State.{State, Cache, Target, is_service_account}
use nk.State.Access.{AccessMessage, from_access}
use nk.State.Disk.{Disk, Failure, save}
use nk.Ssh.Certs.{Files, cleanup_certs}
use nk.Client.Login.{Login, has_session, not_signed_in, device_login, ensure_session}
use nk.Client.Login.Device.{
  Shown, LoginEnd, LoginFailure, login_done, waiting, login_failed, SignIn, LoginRun,
}
use nk.Client.Login.Device
use nk.Client.Trust.{TrustError, Machine, TrustRun, pin_server, confirm_server}

-- The code of a failed call of GetMyAccess, as far as Sync looks at it.
pub data Rejection : Type 0 where
  unauthenticated untrusted other_rejection : Rejection

pub data Response : Type 0 where
  answered : AccessMessage → Response
  rejected : Rejection → Response

-- `sign_in_waits` stands for a sign-in that has not ended; the Boolean of a failed one is whether
-- trust.Untrusted holds of its error.
pub data SyncError : Type 0 where
  no_session sign_in_waits cleanup_failed configs_failed : SyncError
  sign_in_failed : LoginFailure → Bool → SyncError
  request_failed : Rejection → SyncError
  save_failed : Failure → SyncError
  not_pinned not_confirmed : TrustError → SyncError

-- trust.Untrusted
abbrev pub is_untrusted : SyncError → Bool
is_untrusted (sign_in_failed f b) = b
is_untrusted (request_failed untrusted) = true
is_untrusted _ = false

-- connect.CodeOf(err) == connect.CodeUnauthenticated
abbrev pub is_unauthenticated : SyncError → Bool
is_unauthenticated (request_failed unauthenticated) = true
is_unauthenticated _ = false

-- What one call of sync gets from outside.
pub record Attempt : Type 0 where
  pub now : Time
  pub sign_in : SignIn
  pub sign_in_untrusted : Bool
  pub response : Response
  pub synced_at : Time
  pub removable : Text → Bool
  pub config_ok : Bool
  pub cache_ok : Bool
  pub configs_ok : Bool

-- The attempts of one Sync, with the answers of the machine.
pub record Outside : Type 0 where
  pub machine : Machine
  pub first : Attempt
  pub again : Attempt
  pub relogin : Attempt
  pub last : Attempt

pub record Client : Type 0 where
  pub state : State
  pub disk : Disk
  pub files : Files

pub data Event : Type 0 where
  access_requested : Event
  signing_in : List Shown → Event
  configs_written : State → Event

pub record SyncRun : Type 0 where
  pub client : Client
  pub events : List Event
  pub error : Option SyncError

abbrev pub sync_stop : SyncError → Client → SyncRun
sync_stop e c = record { client = c; events = []; error = some e }

abbrev pub sync_done : Client → SyncRun
sync_done c = record { client = c; events = []; error = none }

abbrev pub behind : List Event → SyncRun → SyncRun
behind es r = record r { events = es ++ r.events }

abbrev pub snapshot : Attempt → AccessMessage → Text → Cache
snapshot a res server = record (from_access res) { server = server; synced_at = a.synced_at }

-- sync behind its save
unfoldable pub write_configs : Attempt → State → Files → Disk × Option Failure → SyncRun
write_configs a s fs (d, some e) =
    sync_stop (save_failed e) (record { state = s; disk = d; files = fs })
write_configs a s fs (d, none) =
    let c : Client = record { state = s; disk = d; files = fs } in
    behind (configs_written s ∷ [])
      (if a.configs_ok then sync_done c else sync_stop configs_failed c)

-- sync behind CleanupCerts
unfoldable pub keep_access : Attempt → Cache → Client → Files × Bool → SyncRun
unfolding write_configs save
keep_access a cache c (fs, false) = sync_stop cleanup_failed (record c { files = fs })
keep_access a cache c (fs, true) =
    let s : State = record c.state { cache = cache } in
    write_configs a s fs (save a.config_ok a.cache_ok s c.disk)

unfoldable pub on_response : Attempt → Response → Client → SyncRun
unfolding keep_access cleanup_certs
on_response a (rejected r) c = sync_stop (request_failed r) c
on_response a (answered res) c =
    let cache = snapshot a res c.state.api_url in
    keep_access a cache c (cleanup_certs a.removable cache.targets c.files)

unfoldable pub fetch : Attempt → Client → SyncRun
unfolding on_response
fetch a c = behind (access_requested ∷ []) (on_response a a.response c)

unfoldable pub signed_in_as : Attempt → LoginEnd → Client → (Client → SyncRun) → SyncRun
signed_in_as a login_done c next = next c
signed_in_as a waiting c next = sync_stop sign_in_waits c
signed_in_as a (login_failed f) c next = sync_stop (sign_in_failed f a.sign_in_untrusted) c

-- `err == nil || !interactive || connect.CodeOf(err) != connect.CodeUnauthenticated`
abbrev pub settled : Bool → Option SyncError → Bool
settled interactive none = true
settled interactive (some e) = not interactive || not (is_unauthenticated e)

abbrev pub signs_out : Client → Client
signs_out c = record c {
  state = record c.state {
    config = record c.state.config { session_token = []; session_expires_at = zero_time };
  };
}

abbrev pub trusted : Client → TrustRun → Client
trusted c r = record c { state = r.state; disk = r.disk }

-- Whether Logout asks the backend to revoke the session.
unfoldable pub revokes : State → Bool
unfolding is_service_account
revokes s = not (is_service_account s || is_empty s.session_token)

module _ (parse_scheme : Text → Option Text) where
  unfoldable pub sign_in_run : Attempt → LoginRun → Client → (Client → SyncRun) → SyncRun
  unfolding signed_in_as
  sign_in_run a r c next =
      behind (signing_in r.shown ∷ [])
        (signed_in_as a r.ended (record c { state = r.state; disk = r.disk }) next)

  unfoldable pub on_login : Attempt → Login → Client → (Client → SyncRun) → SyncRun
  unfolding sign_in_run Device.device_login
  on_login a has_session c next = next c
  on_login a not_signed_in c next = sync_stop no_session c
  on_login a device_login c next =
      sign_in_run a (Device.device_login parse_scheme a.sign_in c.state c.disk) c next

  -- ensureSession, and what follows it
  unfoldable pub with_login : Attempt → Bool → Client → (Client → SyncRun) → SyncRun
  unfolding on_login ensure_session
  with_login a interactive c next = on_login a (ensure_session a.now c.state interactive) c next

  -- Client.sync
  unfoldable pub sync : Attempt → Bool → Client → SyncRun
  unfolding with_login fetch
  sync a interactive c = with_login a interactive c (fetch a)

  -- The second login of Sync.
  unfoldable pub log_in_again : Outside → Client → SyncRun
  unfolding with_login sync
  log_in_again o c = with_login o.relogin true (signs_out c) (sync o.last false)

  unfoldable pub retry_login : Outside → Bool → SyncRun → SyncRun
  unfolding log_in_again
  retry_login o interactive r =
      if settled interactive r.error then r else behind r.events (log_in_again o r.client)

  unfoldable pub sync_confirmed : Outside → Bool → List Event → Client → Option TrustError → SyncRun
  unfolding retry_login sync
  sync_confirmed o interactive es c (some e) = behind es (sync_stop (not_confirmed e) c)
  sync_confirmed o interactive es c none =
      retry_login o interactive (behind es (sync o.again interactive c))

  abbrev fails_untrusted : Option SyncError → Bool
  fails_untrusted none = false
  fails_untrusted (some e) = is_untrusted e

  unfoldable pub on_first : Outside → Bool → SyncRun → SyncRun
  unfolding sync_confirmed confirm_server
  on_first o interactive r =
      if fails_untrusted r.error
      then (let t = confirm_server o.machine interactive r.client.state r.client.disk in
          sync_confirmed o interactive r.events (trusted r.client t) t.error)
      else retry_login o interactive r

  unfoldable pub sync_pinned : Outside → Bool → Client → Option TrustError → SyncRun
  unfolding on_first sync
  sync_pinned o interactive c (some e) = sync_stop (not_pinned e) c
  sync_pinned o interactive c none = on_first o interactive (sync o.first interactive c)

  -- Client.Sync
  unfoldable pub sync_all : Outside → Bool → Client → SyncRun
  unfolding sync_pinned pin_server
  sync_all o interactive c =
      let t = pin_server o.machine c.state c.disk in sync_pinned o interactive (trusted c t) t.error
