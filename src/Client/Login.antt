-- ===== src/Client/Login.antt =====
-- internal/client/login.go: the session and the polling of the device flow. What a poll gets, and
-- what the select behind it receives, is an exchange; the loop is a function of the exchanges.
pub mod Polls
pub mod Token
pub mod Device
pub mod Opened
pub mod Post
use nk.Base.{
  ℕ, zero, suc, ◌+◌, ◌-◌, ◌*◌, ◌≡◌, Bool, true, false, ◌&&◌, ◌||◌, not, List, [], ◌∷◌, ◌++◌, Option,
  none, some, ◌==◌, if◌then◌else◌,
}
use nk.Base.Text.{Text, codes, text_eq, is_empty}
use nk.Base.Clock.{Time, Duration, pos, negsuc, second, int64, sub_ℕ, leb_ℤ}
use nk.State.{State, is_service_account, session_valid}

pub data Login : Type 0 where
  has_session not_signed_in device_login : Login

-- ensureSession; `device_login` stands for the call of deviceLogin.
unfoldable pub ensure_session : Time → State → Bool → Login
unfolding is_service_account session_valid
ensure_session now s interactive =
    if is_service_account s
    then has_session
    else if session_valid now s
    then has_session
    else if not interactive
    then not_signed_in
    else device_login

-- The fields of a reply that the loop reads.
pub record Reply : Type 0 where
  pub access_token : Text
  pub expires_in : ℕ
  pub error : Text

-- What the select receives when it waits.
pub data Wake : Type 0 where
  ticked cancelled timed_out : Wake

-- One round: whether postForm returned no error, the decoded body, whether a nonce was fetched, and
-- how the wait behind it ended.
pub record Exchange : Type 0 where
  pub answered : Bool
  pub reply : Option Reply
  pub nonce_fetched : Bool
  pub wake : Wake

-- The variables of the loop.
pub record Polling : Type 0 where
  pub wait : Duration
  pub bootstrapped : Bool
  pub nonce_retried : Bool

pub data LoginError : Type 0 where
  transport unexpected nonce_rejected proof_rejected no_nonce : LoginError
  denied code_expired sign_in_cancelled sign_in_timed_out : LoginError
  other : Text → LoginError

-- What a reply means: the token, an end, a retry at once, or a wait.
pub data Verdict : Type 0 where
  token : Text → ℕ → Verdict
  give_up : LoginError → Verdict
  retry : Polling → Verdict
  pause : Polling → Verdict

-- `5 * time.Second`
abbrev pub five_seconds : Duration
five_seconds = pos (5 * second)

-- `wait += 5 * time.Second`, for a wait above 0; the sum is one of int64.
unfoldable pub longer : Duration → Duration
unfolding int64
longer (pos n) = int64 (n + 5 * second)
longer (negsuc n) = sub_ℕ (5 * second) (suc n)

-- The first wait; the product is one of int64.
unfoldable pub first_wait : ℕ → Duration
unfolding int64
first_wait interval =
    let wait = int64 (interval * second) in if leb_ℤ wait (pos 0) then five_seconds else wait

-- The switch over the error code; `dpop` says whether c.dpop is set.
unfoldable pub on_error : Bool → Bool → Text → Polling → Verdict
unfolding text_eq longer
on_error dpop fetched code p =
    if text_eq code (codes "authorization_pending")
    then pause p
    else if text_eq code (codes "use_dpop_nonce")
    then (if p.nonce_retried
        then give_up nonce_rejected
        else retry (record p { nonce_retried = true }))
    else if text_eq code (codes "invalid_dpop_proof")
    then (if p.bootstrapped || not dpop
        then give_up proof_rejected
        else if not fetched
        then give_up no_nonce
        else retry (record p { bootstrapped = true }))
    else if text_eq code (codes "slow_down")
    then pause (record p { wait = longer p.wait })
    else if text_eq code (codes "access_denied")
    then give_up denied
    else if text_eq code (codes "expired_token")
    then give_up code_expired
    else give_up (other code)

-- `doErr != nil` decides which error a body without a code is.
abbrev pub no_code : Bool → Verdict
no_code answered = if not answered then give_up transport else give_up unexpected

unfoldable pub judge_reply : Bool → Bool → Bool → Option Reply → Polling → Verdict
unfolding on_error
judge_reply dpop answered fetched none p = no_code answered
judge_reply dpop answered fetched (some r) p =
    if answered && not (is_empty r.access_token)
    then token r.access_token r.expires_in
    else if is_empty r.error
    then no_code answered
    else on_error dpop fetched r.error p

-- The loop's body up to its select.
unfoldable pub judge : Bool → Exchange → Polling → Verdict
unfolding judge_reply
judge dpop x p = judge_reply dpop x.answered x.nonce_fetched x.reply p

-- How far the loop is: still going, with its waits so far, or at an end.
pub data Poll : Type 0 where
  polling : Polling → ℕ → Poll
  signed_in : Text → ℕ → Poll
  failed : LoginError → Poll

-- The select; a tick allows a fresh nonce again.
unfoldable pub await : Wake → Polling → ℕ → Poll
await ticked p waits = polling (record p { nonce_retried = false }) (suc waits)
await cancelled p waits = failed sign_in_cancelled
await timed_out p waits = failed sign_in_timed_out

unfoldable pub follow : Verdict → Wake → ℕ → Poll
unfolding await
follow (token t n) w waits = signed_in t n
follow (give_up e) w waits = failed e
follow (retry p) w waits = polling p waits
follow (pause p) w waits = await w p waits

-- The loop of pollDeviceToken over the exchanges so far.
unfoldable pub poll : Bool → List Exchange → Poll → Poll
unfolding judge follow
poll dpop [] s = s
poll dpop (x ∷ xs) (polling p waits) = poll dpop xs (follow (judge dpop x p) x.wake waits)
poll dpop (x ∷ xs) s = s

-- pollDeviceToken; an interval of 0 or less is 0 here.
unfoldable pub poll_device_token : Bool → ℕ → List Exchange → Poll
unfolding poll first_wait
poll_device_token dpop interval xs =
    poll dpop xs (
      polling (record { wait = first_wait interval; bootstrapped = false; nonce_retried = false })
        0)
