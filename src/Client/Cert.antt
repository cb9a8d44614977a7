-- ===== src/Client/Cert.antt =====
-- internal/client/client.go: EnsureCert. The answers of the machine's key and of the backend are
-- arguments, and so is fsutil.WriteFile.
use nk.Base.{
  ◌≡◌, ◌≢◌, refl, inl, inr, ◌⊎◌, Bool, true, false, not, Option, none, some, if◌then◌else◌,
  Bool-cases,
}
use nk.Base.Text.{Text}
use nk.Base.Clock.{Time, pos}
use nk.State.{is_service_account, session_valid, State, Target, Ca}
use nk.Ssh.Certs.{PublicKey, Error, check_cert, cert_fresh, cert_valid}
use nk.Ssh.Certs.Fresh.{cert_fresh-valid}
use nk.Client.Login.{Login, has_session, not_signed_in, device_login, ensure_session}

-- `sign_in_started` stands for a sign-in in the browser, which EnsureCert rules out.
pub data CertError : Type 0 where
  no_session sign_in_started no_key not_signed unusable not_written : CertError

-- A file after a write, and whether the write reported no error.
pub record Write : Type 0 where
  pub file : Option Text
  pub written : Bool

quiet_choice :
    (a b : Bool)
    → (if a
        then has_session
        else if b
        then has_session
        else if not false
        then not_signed_in
        else device_login)
      ≢ device_login
quiet_choice true b e = cc
quiet_choice false true e = cc
quiet_choice false false e = cc

ensure_session-quiet : (now : Time) (s : State) → ensure_session now s false ≢ device_login
unfolding ensure_session
ensure_session-quiet now s = quiet_choice (is_service_account s) (session_valid now s)

module _ (parse_key : Text → Option PublicKey) (marshal : PublicKey → Text)
    (write_file : Text → Option Text → Write) where
  unfoldable pub keep_checked : Option Text → Text → Option Error → Option Text × Option CertError
  keep_checked file signed (some e) = (file, some unusable)
  keep_checked file signed none =
      let w = write_file signed file in (w.file, if w.written then none else some not_written)

  -- What the backend signed, checked and written.
  unfoldable pub keep_signed : Time → Option Text → Ca → Text → Option Text × Option CertError
  unfolding keep_checked
  keep_signed now file ca signed =
      keep_checked file signed (check_cert parse_key marshal now signed ca.public_key (pos 0))

  -- EnsureCert behind its session; `key` is PubKey's answer and `signed` the backend's.
  unfoldable pub request_cert :
      Time → Option Text → Ca → Option Text → Option Text → Option Text × Option CertError
  unfolding keep_signed
  request_cert now file ca none signed = (file, some no_key)
  request_cert now file ca (some key) none = (file, some not_signed)
  request_cert now file ca (some key) (some c) = keep_signed now file ca c

  -- EnsureCert behind ensureSession, where a sign-in is only noted.
  unfoldable pub with_session :
      Login → Time → Option Text → Ca → Option Text → Option Text → Option Text × Option CertError
  unfolding request_cert
  with_session has_session now file ca key signed = request_cert now file ca key signed
  with_session not_signed_in now file ca key signed = (file, some no_session)
  with_session device_login now file ca key signed = (file, some sign_in_started)

  -- EnsureCert; `file` is the certificate on disk.
  unfoldable pub ensure_cert :
      Time
      → State
      → Option Text
      → Target
      → Ca
      → Option Text
      → Option Text
      → Option Text × Option CertError
  unfolding with_session ensure_session
  ensure_cert now s file t ca key signed =
      if cert_fresh parse_key marshal now file t ca
      then (file, none)
      else with_session (ensure_session now s false) now file ca key signed

  request_cert-quiet :
      (now : Time) (file : Option Text) (ca : Ca) (key signed : Option Text)
      → (request_cert now file ca key signed).1 ≢ some sign_in_started
  unfolding request_cert keep_signed
  request_cert-quiet now file ca none signed h = cc
  request_cert-quiet now file ca (some k) none h = cc
  request_cert-quiet now file ca (some k) (some c) h =
      kept (check_cert parse_key marshal now c ca.public_key (pos 0)) h
    where
      written : (b : Bool) → (if b then none else some not_written) ≢ some sign_in_started
      written true e = cc
      written false e = cc

      kept : (o : Option Error) → (keep_checked file c o).1 ≢ some sign_in_started
      kept (some x) e = unfold keep_checked in cc
      kept none e = written (write_file c file).written (unfold keep_checked in e)

  with_session-quiet :
      (l : Login) (now : Time) (file : Option Text) (ca : Ca) (key signed : Option Text)
      → l ≢ device_login
      → (with_session l now file ca key signed).1 ≢ some sign_in_started
  unfolding with_session
  with_session-quiet has_session now file ca key signed n =
      request_cert-quiet now file ca key signed
  with_session-quiet not_signed_in now file ca key signed n = λ e. cc
  with_session-quiet device_login now file ca key signed n = absurd (n refl)

  -- EnsureCert never starts a sign-in.
  pub ensure_cert-quiet :
      (now : Time) (s : State) (file : Option Text) (t : Target) (ca : Ca)
      (key signed : Option Text)
      → (ensure_cert now s file t ca key signed).1 ≢ some sign_in_started
  unfolding ensure_cert
  ensure_cert-quiet now s file t ca key signed =
      elim (Bool-cases (cert_fresh parse_key marshal now file t ca)) [
        | inl e ↦ rw e (λ h. cc)
        | inr e ↦ rw e (
            with_session-quiet (ensure_session now s false) now file ca key signed
              (ensure_session-quiet now s))
      ]

  -- A write is all or nothing, as fsutil.WriteFile renames a finished file into place.
  abbrev pub IsAtomic : Type 0
  IsAtomic =
      (c : Text) (old : Option Text)
      → (((write_file c old).written ≡ true) × ((write_file c old).file ≡ some c))
        ⊎ (((write_file c old).written ≡ false) × ((write_file c old).file ≡ old))

  -- How EnsureCert may end.
  abbrev pub IsEnsured : Time → Option Text → Target → Ca → Option Text × Option CertError → Type 0
  IsEnsured now file t ca (after, some e) = after ≡ file
  IsEnsured now file t ca (after, none) =
      ((cert_fresh parse_key marshal now file t ca ≡ true) × (after ≡ file))
      ⊎ ((c : Text) × (after ≡ some c)
          × (check_cert parse_key marshal now c ca.public_key (pos 0) ≡ none))

  keep_checked-IsEnsured :
      (now : Time) (file : Option Text) (t : Target) (ca : Ca) (c : Text) (o : Option Error)
      → check_cert parse_key marshal now c ca.public_key (pos 0) ≡ o
      → IsAtomic
      → IsEnsured now file t ca (keep_checked file c o)
  unfolding keep_checked
  keep_checked-IsEnsured now file t ca c (some x) e atomic = refl
  keep_checked-IsEnsured now file t ca c none e atomic = elim (atomic c file) [
    | inl (w, f) ↦ rw (keep_checked, w, f) (inr (c, refl, e))
    | inr (w, f) ↦ rw (keep_checked, w) f
  ]

  with_session-IsEnsured :
      (l : Login) (now : Time) (file : Option Text) (t : Target) (ca : Ca)
      (key signed : Option Text)
      → IsAtomic
      → IsEnsured now file t ca (with_session l now file ca key signed)
  unfolding with_session request_cert
  with_session-IsEnsured not_signed_in now file t ca key signed atomic = refl
  with_session-IsEnsured device_login now file t ca key signed atomic = refl
  with_session-IsEnsured has_session now file t ca none signed atomic = refl
  with_session-IsEnsured has_session now file t ca (some k) none atomic = refl
  with_session-IsEnsured has_session now file t ca (some k) (some c) atomic =
      unfold keep_signed in keep_checked-IsEnsured now file t ca c _ refl atomic

  -- Without an error the certificate is valid now.
  pub IsEnsured-valid :
      (now : Time) (file after : Option Text) (t : Target) (ca : Ca)
      → IsEnsured now file t ca (after, none)
      → cert_valid parse_key marshal now after ca (pos 0) ≡ true
  unfolding cert_valid
  IsEnsured-valid now file after t ca (inl (f, e)) =
      cert_fresh-valid parse_key marshal now after t ca (rw e f)
  IsEnsured-valid now file after t ca (inr (c, e, k)) = rw (e, cert_valid, k) refl

  -- Where a write of the certificate is all or nothing: EnsureCert without an error leaves a
  -- certificate that was fresh already, or one that it checked against the CA and wrote; with an
  -- error the certificate on disk stays what it was.
  pub ensure_cert-IsEnsured :
      (now : Time) (s : State) (file : Option Text) (t : Target) (ca : Ca)
      (key signed : Option Text)
      → IsAtomic
      → IsEnsured now file t ca (ensure_cert now s file t ca key signed)
  unfolding ensure_cert
  ensure_cert-IsEnsured now s file t ca key signed atomic =
      elim (Bool-cases (cert_fresh parse_key marshal now file t ca)) [
        | inl e ↦ rw e (inl (e, refl))
        | inr e ↦
            rw e
              (with_session-IsEnsured (ensure_session now s false) now file t ca key signed atomic)
      ]
