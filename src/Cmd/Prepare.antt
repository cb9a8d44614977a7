-- ===== src/Cmd/Prepare.antt =====
-- internal/cmd/proxy.go: nk prepare, the hook that ssh runs before it reads the certificate.
use nk.Base.{
  ◌≡◌, refl, find?-sound, ◌⊎◌, inl, inr, Bool, true, false, ◌&&◌, Option, none, some, if◌then◌else◌,
  Bool-cases,
}
use nk.Base.Text.{Text, text_eq, text_eq_iff}
use nk.Base.Clock.{Time, pos}
use nk.State.{State, Target, Ca, target_by_id, ca_by_id, sync_failed_within}
use nk.State.Disk.{Disk, mark_sync_failed}
use nk.Ssh.Certs.{PublicKey, Files, cert_valid, cert_fresh}
use nk.Ssh.Keys.{pub_key}
use nk.Client.Cert.{
  Write, CertError, IsAtomic, IsEnsured, ensure_cert, ensure_cert-IsEnsured, IsEnsured-valid,
}
use nk.Client.New.{Start, Local, is_made, new_client, cert_at}
use nk.Cmd.Proxy.{sync_retry_after}

pub data PrepareError : Type 0 where
  unknown_target no_client : PrepareError
  not_renewed : CertError → PrepareError

-- What nk prepare gets from outside: what client.New needs and the public key's file, whether the mark
-- is saved, and the certificate that the backend signs.
pub record Hook : Type 0 where
  pub now : Time
  pub start : Start
  pub key_file : Option Text
  pub mark_ok : Bool
  pub signed : Option Text

-- What it leaves; `certificate` is the target's file, and `asked` is whether EnsureCert was called.
pub record Prepared : Type 0 where
  pub state : State
  pub disk : Disk
  pub certificate : Option Text
  pub asked : Bool
  pub error : Option PrepareError

abbrev pub prepare_stop : Option PrepareError → State → Disk → Option Text → Prepared
prepare_stop e s d file = record {
  state = s;
  disk = d;
  certificate = file;
  asked = false;
  error = e;
}

-- What is on disk behind client.New.
abbrev pub made_for : Hook → Files → Local
made_for h fs = new_client h.start (record { key_file = h.key_file; files = fs; made = none })

-- renewCert behind EnsureCert: a failure is marked.
unfoldable pub mark_failure : Hook → State → Disk → Option Text × Option CertError → Prepared
unfolding mark_sync_failed
mark_failure h s d (file, none) = record {
  state = s;
  disk = d;
  certificate = file;
  asked = true;
  error = none;
}
mark_failure h s d (file, some e) =
    let m = mark_sync_failed h.now h.mark_ok s d in
    record {
      state = m.0;
      disk = m.1;
      certificate = file;
      asked = true;
      error = some (not_renewed e);
    }

target_by_id-id : (s : State) (id : Text) (t : Target) → target_by_id s id ≡ some t → t.id ≡ id
unfolding target_by_id
target_by_id-id s id t h =
    (text_eq_iff t.id id).0 (find?-sound (λ (x : Target). text_eq x.id id) s.targets t h).1

module _ (parse_key : Text → Option PublicKey) (marshal : PublicKey → Text)
    (write_file : Text → Option Text → Write) where
  unfoldable pub renew : Hook → State → Disk → Files → Target → Ca → Prepared
  unfolding sync_failed_within mark_failure new_client cert_at pub_key
  renew h s d fs t ca =
      let file = cert_at t.id fs in
      let b = made_for h fs in
      let found = cert_at t.id b.files in
      if cert_fresh parse_key marshal h.now file t ca
      then prepare_stop none s d file
      else if cert_valid parse_key marshal h.now file ca (pos 0)
          && sync_failed_within h.now s sync_retry_after
      then prepare_stop none s d file
      else if is_made b.made
      then mark_failure h s d (
          ensure_cert parse_key marshal write_file h.now s found t ca
            (pub_key h.start.removable b.key_file) h.signed)
      else prepare_stop (some no_client) s d found

  unfoldable pub renew_authority : Hook → State → Disk → Files → Target → Option Ca → Prepared
  unfolding renew
  renew_authority h s d fs t none = prepare_stop none s d (cert_at t.id fs)
  renew_authority h s d fs t (some ca) = renew h s d fs t ca

  unfoldable pub renew_target : Hook → State → Disk → Files → Text → Option Target → Prepared
  unfolding renew_authority ca_by_id
  renew_target h s d fs id none = prepare_stop (some unknown_target) s d (cert_at id fs)
  renew_target h s d fs id (some t) = renew_authority h s d fs t (ca_by_id s t.ca_id)

  -- renewCert behind loadState
  unfoldable pub renew_cert : Hook → State → Disk → Files → Text → Prepared
  unfolding renew_target target_by_id
  renew_cert h s d fs id = renew_target h s d fs id (target_by_id s id)

  -- A certificate that is valid now by the CA of the target.
  abbrev pub IsChecked : Time → State → Text → Option Text → Type 0
  IsChecked now s id cert =
      (t : Target) × (target_by_id s id ≡ some t)
      × ((ca : Ca) × (ca_by_id s t.ca_id ≡ some ca)
          × (cert_valid parse_key marshal now cert ca (pos 0) ≡ true))

  -- How the hook may end, for the file of the certificate that has that name. Only a failed renewal
  -- changes the state, which says so.
  abbrev pub IsPrepared :
      Hook → State → Disk → Files → Text → Text → Option PrepareError → Prepared → Type 0
  IsPrepared h s d fs id name none p =
      (p.state ≡ s)
      × (p.disk ≡ d)
      × ((p.certificate ≡ cert_at name fs) ⊎ IsChecked h.now s id p.certificate)
  IsPrepared h s d fs id name (some (not_renewed e)) p =
      (p.state ≡ record s { cache = record s.cache { failed_at = h.now } })
      × (p.certificate ≡ cert_at name (made_for h fs).files)
  IsPrepared h s d fs id name (some unknown_target) p =
      (p.state ≡ s) × (p.disk ≡ d) × (p.certificate ≡ cert_at name fs)
  IsPrepared h s d fs id name (some no_client) p =
      (p.state ≡ s) × (p.disk ≡ d) × (p.certificate ≡ cert_at name (made_for h fs).files)

  mark_failure-IsPrepared :
      (h : Hook) (s : State) (d : Disk) (fs : Files) (id : Text) (t : Target) (ca : Ca)
      (r : Option Text × Option CertError)
      → target_by_id s id ≡ some t
      → ca_by_id s t.ca_id ≡ some ca
      → IsEnsured parse_key marshal write_file h.now (cert_at t.id (made_for h fs).files) t ca r
      → let p = mark_failure h s d r in IsPrepared h s d fs id t.id p.error p
  unfolding mark_failure mark_sync_failed
  mark_failure-IsPrepared h s d fs id t ca (after, some e) q a i = (refl, i)
  mark_failure-IsPrepared h s d fs id t ca (after, none) q a i = (
    refl,
    refl,
    inr (
      t,
      q,
      (
        ca,
        a,
        IsEnsured-valid parse_key marshal write_file h.now (cert_at t.id (made_for h fs).files)
            after t ca i,
      ),
    ),
  )

  renew-IsPrepared :
      (h : Hook) (s : State) (d : Disk) (fs : Files) (id : Text) (t : Target) (ca : Ca)
      → IsAtomic parse_key marshal write_file
      → target_by_id s id ≡ some t
      → ca_by_id s t.ca_id ≡ some ca
      → let p = renew h s d fs t ca in IsPrepared h s d fs id t.id p.error p
  unfolding renew
  renew-IsPrepared h s d fs id t ca atomic q a =
      let file = cert_at t.id fs in
      let b = made_for h fs in
      elim (Bool-cases (cert_fresh parse_key marshal h.now file t ca)) [
        | inl e ↦ simp e (refl, refl, inl refl)
        | inr e ↦
            elim (Bool-cases (
              cert_valid parse_key marshal h.now file ca (pos 0)
              && sync_failed_within h.now s sync_retry_after)) [
                | inl f ↦ simp (e, f) (refl, refl, inl refl)
                | inr f ↦ elim (Bool-cases (is_made b.made)) [
                  | inr k ↦ simp (e, f, k) (refl, refl, refl)
                  | inl k ↦
                      simp (e, f, k)
                        (mark_failure-IsPrepared h s d fs id t ca _ q a (
                          ensure_cert-IsEnsured parse_key marshal write_file h.now s
                            (cert_at t.id b.files) t ca (pub_key h.start.removable b.key_file)
                            h.signed atomic))
                ]
              ]
      ]

  renew_authority-IsPrepared :
      (h : Hook) (s : State) (d : Disk) (fs : Files) (id : Text) (t : Target) (c : Option Ca)
      → IsAtomic parse_key marshal write_file
      → target_by_id s id ≡ some t
      → ca_by_id s t.ca_id ≡ c
      → let p = renew_authority h s d fs t c in IsPrepared h s d fs id t.id p.error p
  unfolding renew_authority
  renew_authority-IsPrepared h s d fs id t none atomic q a = (refl, refl, inl refl)
  renew_authority-IsPrepared h s d fs id t (some ca) atomic q a =
      renew-IsPrepared h s d fs id t ca atomic q a

  renew_target-IsPrepared :
      (h : Hook) (s : State) (d : Disk) (fs : Files) (id : Text) (t : Option Target)
      → IsAtomic parse_key marshal write_file
      → target_by_id s id ≡ t
      → let p = renew_target h s d fs id t in IsPrepared h s d fs id id p.error p
  unfolding renew_target
  renew_target-IsPrepared h s d fs id none atomic q = (refl, refl, refl)
  renew_target-IsPrepared h s d fs id (some t) atomic q =
      let p = renew_authority h s d fs t (ca_by_id s t.ca_id) in
      named h s d fs id t.id id p.error p (target_by_id-id s id t q)
        (renew_authority-IsPrepared h s d fs id t (ca_by_id s t.ca_id) atomic q refl)
    where
      named :
          (h : Hook) (s : State) (d : Disk) (fs : Files) (id x y : Text) (e : Option PrepareError)
          (p : Prepared)
          → x ≡ y
          → IsPrepared h s d fs id x e p
          → IsPrepared h s d fs id y e p
      named h s d fs id x y e p same i = rw same at i

  -- Where a write of the certificate is all or nothing: nk prepare without an error leaves the state
  -- and the snapshot's file, and the target's certificate as it was or one that is valid now by the
  -- CA of the target. Behind a failed renewal the state is marked with the time of the failure.
  -- With any error the certificate is the one from before, for an unknown target, or what client.New
  -- has left of it.
  pub renew_cert-IsPrepared :
      (h : Hook) (s : State) (d : Disk) (fs : Files) (id : Text)
      → IsAtomic parse_key marshal write_file
      → let p = renew_cert h s d fs id in IsPrepared h s d fs id id p.error p
  unfolding renew_cert
  renew_cert-IsPrepared h s d fs id atomic =
      renew_target-IsPrepared h s d fs id (target_by_id s id) atomic refl
