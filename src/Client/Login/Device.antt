-- ===== src/Client/Login/Device.antt =====
-- internal/client/login.go: beginDeviceAuth and deviceLogin. What the backend answers, the polls
-- and whether the writes succeed are arguments, and so is url.Parse.
use nk.Base.{
  ℕ, ◌*◌, Bool, false, ◌||◌, List, [], ◌∷◌, ◌++◌, Option, none, some, any, ltb, if◌then◌else◌,
}
use nk.Base.Text.{Text, codes, text_eq, is_empty, is_control, first_of_texts}
use nk.Base.Clock.{Time, second, int64, add}
use nk.State.{State}
use nk.State.Disk.{Disk, Failure, save}
use nk.Client.Login.{LoginError, Exchange, Poll, polling, signed_in, failed, poll_device_token}

-- deviceAuth; an interval of 0 or less is 0 here, as pollDeviceToken treats both alike.
pub record DeviceAuth : Type 0 where
  pub device_code : Text
  pub user_code : Text
  pub verification_uri : Text
  pub verification_uri_complete : Text
  pub interval : ℕ

pub data BeginError : Type 0 where
  no_answer not_json incomplete control_characters not_a_web_address : BeginError

pub data Begun : Type 0 where
  begun : DeviceAuth → Begun
  not_begun : BeginError → Begun

-- What the device endpoint answers: none for a failed request.
pub data Answer : Type 0 where
  failed_request not_decoded : Answer
  decoded : DeviceAuth → Answer

abbrev pub web_scheme : Option Text → Bool
web_scheme none = false
web_scheme (some s) = text_eq s (codes "https") || text_eq s (codes "http")

-- What the user sees, and what is handed to the OS opener.
pub data Shown : Type 0 where
  link code opened : Text → Shown

pub data LoginFailure : Type 0 where
  no_start : BeginError → LoginFailure
  no_token : LoginError → LoginFailure
  not_saved : Failure → LoginFailure

-- How far the sign-in is; `waiting` as long as the polls have not ended.
pub data LoginEnd : Type 0 where
  login_done waiting : LoginEnd
  login_failed : LoginFailure → LoginEnd

-- What a sign-in gets from outside.
pub record SignIn : Type 0 where
  pub dpop : Bool
  pub answer : Answer
  pub exchanges : List Exchange
  pub clock : Time
  pub config_ok : Bool
  pub cache_ok : Bool

pub record LoginRun : Type 0 where
  pub shown : List Shown
  pub state : State
  pub disk : Disk
  pub ended : LoginEnd

abbrev pub login_end : Option Failure → LoginEnd
login_end none = login_done
login_end (some e) = login_failed (not_saved e)

-- The state with the token; without a lifetime the stored expiry stays.
unfoldable pub with_token : Time → Text → ℕ → State → State
unfolding int64 add
with_token now t n s =
    let c = record s.config { session_token = t } in
    record s {
      config =
          if ltb 0 n then record c { session_expires_at = add now (int64 (n * second)) } else c;
    }

unfoldable pub store_token : SignIn → Text → ℕ → State → Disk → List Shown → LoginRun
unfolding with_token save
store_token a t n s d shown =
    let s' = with_token a.clock t n s in
    let saved = save a.config_ok a.cache_ok s' d in
    record { shown = shown; state = s'; disk = saved.0; ended = login_end saved.1 }

-- deviceLogin behind its polls
unfoldable pub on_poll : SignIn → Poll → State → Disk → List Shown → LoginRun
unfolding store_token
on_poll a (signed_in t n) s d shown = store_token a t n s d shown
on_poll a (failed e) s d shown = record {
  shown = shown;
  state = s;
  disk = d;
  ended = login_failed (no_token e);
}
on_poll a (polling p waits) s d shown = record {
  shown = shown;
  state = s;
  disk = d;
  ended = waiting;
}

-- deviceLogin behind beginDeviceAuth
unfoldable pub on_begun : SignIn → Begun → State → Disk → LoginRun
unfolding on_poll
on_begun a (not_begun e) s d = record {
  shown = [];
  state = s;
  disk = d;
  ended = login_failed (no_start e);
}
on_begun a (begun auth) s d =
    on_poll a (poll_device_token a.dpop auth.interval a.exchanges) s d
      (link auth.verification_uri ∷ code auth.user_code ∷ opened auth.verification_uri ∷ [])

module _ (parse_scheme : Text → Option Text) where
  -- beginDeviceAuth behind the decoding
  unfoldable pub check_auth : DeviceAuth → Begun
  unfolding is_control
  check_auth auth =
      let uri = first_of_texts auth.verification_uri_complete auth.verification_uri in
      let d : DeviceAuth = record auth { verification_uri = uri } in
      if is_empty d.device_code || is_empty d.user_code || is_empty uri
      then not_begun incomplete
      else if any is_control (d.user_code ++ uri)
      then not_begun control_characters
      else if web_scheme (parse_scheme uri)
      then begun d
      else not_begun not_a_web_address

  -- beginDeviceAuth
  unfoldable pub begin_device_auth : Answer → Begun
  unfolding check_auth
  begin_device_auth failed_request = not_begun no_answer
  begin_device_auth not_decoded = not_begun not_json
  begin_device_auth (decoded auth) = check_auth auth

  -- deviceLogin
  unfoldable pub device_login : SignIn → State → Disk → LoginRun
  unfolding begin_device_auth on_begun
  device_login a s d = on_begun a (begin_device_auth a.answer) s d
