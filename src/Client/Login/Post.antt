-- ===== src/Client/Login/Post.antt =====
-- internal/client/login.go: postForm, over what the request gets.
use nk.Base.{
  ℕ, ◌*◌, ◌≤◌, Bool, false, ◌&&◌, not, [], ◌++◌, Option, none, some, length, take, length-take, leb,
  ◌==◌, if◌then◌else◌, Bool-cases, inl, inr, arith,
}
use nk.Base.Text.{Text, codes, trim_space, trim_right}
use nk.Ui.{decimal}

-- maxDeviceResponse
abbrev pub max_device_response : ℕ
max_device_response = 64 * 1024

pub data PostError : Type 0 where
  bad_request no_proof not_sent not_received : PostError
  refused_with : Text → PostError

-- A response: its status, and its whole body where it can be read.
pub record Response : Type 0 where
  pub status_code : ℕ
  pub content : Option Text

-- What a request gets: whether it can be built and, with DPoP, signed, and the response.
pub record Sending : Type 0 where
  pub request_ok : Bool
  pub dpop : Bool
  pub proof_ok : Bool
  pub response : Option Response

-- The body, the error, and whether the response's nonce was learned.
pub record Posted : Type 0 where
  pub body : Text
  pub error : Option PostError
  pub learned : Bool

abbrev pub posting_failed : PostError → Bool → Posted
posting_failed e learned = record { body = []; error = some e; learned = learned }

-- The URL that the form goes to.
unfoldable pub post_url : Text → Text → Text
unfolding trim_right
post_url api path = trim_right (λ c. c == b'/') api ++ path

unfoldable pub on_content : Bool → ℕ → Option Text → Posted
unfolding trim_space decimal
on_content learned status none = posting_failed not_received learned
on_content learned status (some content) =
    let read = take max_device_response content in
    record {
      body = read;
      error =
          if leb 400 status
          then some (
              refused_with (
                codes "device authorization: HTTP "
                ++ (decimal status ++ (codes ": " ++ trim_space read))))
          else none;
      learned = learned;
    }

unfoldable pub on_reply : Bool → Option Response → Posted
unfolding on_content
on_reply dpop none = posting_failed not_sent false
on_reply dpop (some r) = on_content dpop r.status_code r.content

-- postForm
unfoldable pub post_form : Sending → Posted
unfolding on_reply
post_form s =
    if not s.request_ok
    then posting_failed bad_request false
    else if s.dpop && not s.proof_ok
    then posting_failed no_proof false
    else on_reply s.dpop s.response

on_content-bounded :
    (learned : Bool) (status : ℕ) (content : Option Text)
    → length (on_content learned status content).body ≤ max_device_response
unfolding on_content
on_content-bounded learned status none = omega arith
on_content-bounded learned status (some c) = omega (arith, length-take max_device_response c)

-- However long the response is, at most 64 KiB of it are kept.
pub post_form-bounded : (s : Sending) → length (post_form s).body ≤ max_device_response
unfolding post_form on_reply
post_form-bounded s = elim (Bool-cases s.request_ok) [
  | inr e ↦ simp e (omega arith)
  | inl e ↦ elim (Bool-cases (s.dpop && not s.proof_ok)) [
    | inl f ↦ simp (e, f) (omega arith)
    | inr f ↦ simp (e, f) (kept s.response)
  ]
]
  where
    kept : (r : Option Response) → length (on_reply s.dpop r).body ≤ max_device_response
    kept none = omega arith
    kept (some r) = on_content-bounded s.dpop r.status_code r.content
