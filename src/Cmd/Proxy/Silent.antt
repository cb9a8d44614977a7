-- ===== src/Cmd/Proxy/Silent.antt =====
-- internal/cmd/proxy.go: what nk proxy leaves alone.
use nk.Base.{◌≢◌, inl, inr, false, ◌||◌, List, Option, none, some, All, Bool-cases}
use nk.Base.Text.{Text, is_empty}
use nk.Base.Clock.{pos}
use nk.State.{State, Target, Ca, target_by_id}
use nk.Ssh.Certs.{PublicKey, cert_valid, cert_covers}
use nk.Ssh.Keys.{pub_key}
use nk.Client.Cert.{Write, CertError, sign_in_started, ensure_cert-quiet}
use nk.Client.New.{Local, is_made, backend, cert_at}
use nk.Client.Fallback.{Fallback, sync_or_cache}
use nk.Client.Sync.{Client, Event, sync_all}
use nk.Client.Sync.Quiet.{IsQuiet, sync_all-KeepsQuiet}
use nk.Cmd.Proxy.{
  ProxyEvent, synced, certificate_requested, ProxyRun, ProxyOutside, stale, is_none, dial, renewed,
  certify, with_authority, with_target, after_sync, sync_first, succeeded, with_backend, proxy,
  begin,
}

module _ (parse_key : Text → Option PublicKey) (marshal : PublicKey → Text)
    (write_file : Text → Option Text → Write) (parse_scheme : Text → Option Text) where
  -- No sign-in was started.
  abbrev pub IsSilent : ProxyEvent → Type 0
  IsSilent (synced es) = All IsQuiet es
  IsSilent (certificate_requested e) = e ≢ some sign_in_started

  abbrev Silent : ProxyRun → Type 0
  Silent r = All IsSilent r.events

  dial-Silent :
      (o : ProxyOutside) (s : State) (t : Target) (ca : Ca) (cert : Option Text)
      → Silent (dial parse_key marshal write_file parse_scheme o s t ca cert)
  unfolding dial
  dial-Silent o s t ca cert = elim (Bool-cases o.agent_ok) [ inl e ↦ simp e tt | inr e ↦ simp e tt ]

  renewed-Silent :
      (o : ProxyOutside) (s : State) (t : Target) (ca : Ca) (r : Option Text × Option CertError)
      → Silent (renewed parse_key marshal write_file parse_scheme o s t ca r)
  unfolding renewed
  renewed-Silent o s t ca (cert, none) = dial-Silent o s t ca cert
  renewed-Silent o s t ca (cert, some e) = tt

  certify-Silent :
      (o : ProxyOutside) (s : State) (l : Local) (t : Target) (ca : Ca)
      → Silent (certify parse_key marshal write_file parse_scheme o s l t ca)
  unfolding certify
  certify-Silent o s l t ca =
      let file = cert_at t.id l.files in
      let b = backend o.start l in
      let quiet =
        ensure_cert-quiet parse_key marshal write_file o.now s (cert_at t.id b.files) t ca
          (pub_key o.start.removable b.key_file) o.signed in
      elim (Bool-cases (cert_valid parse_key marshal o.now file ca (pos 0))) [
        | inr v ↦ elim (Bool-cases (is_made b.made)) [
          | inl k ↦ simp (v, k) (quiet, renewed-Silent o s t ca _)
          | inr k ↦ simp (v, k) tt
        ]
        | inl v ↦ elim (Bool-cases (cert_covers parse_key marshal file t)) [
          | inl u ↦ simp (v, u) (dial-Silent o s t ca file)
          | inr u ↦ elim (Bool-cases (is_made b.made)) [
            | inl k ↦ simp (v, u, k) (quiet, dial-Silent o s t ca _)
            | inr k ↦ simp (v, u, k) (dial-Silent o s t ca _)
          ]
        ]
      ]

  with_authority-Silent :
      (o : ProxyOutside) (s : State) (l : Local) (t : Target) (c : Option Ca)
      → Silent (with_authority parse_key marshal write_file parse_scheme o s l t c)
  unfolding with_authority
  with_authority-Silent o s l t none = tt
  with_authority-Silent o s l t (some ca) = certify-Silent o s l t ca

  with_target-Silent :
      (o : ProxyOutside) (s : State) (l : Local) (t : Option Target)
      → Silent (with_target parse_key marshal write_file parse_scheme o s l t)
  unfolding with_target
  with_target-Silent o s l none = tt
  with_target-Silent o s l (some t) = with_authority-Silent o s l t _

  after_sync-Silent :
      (o : ProxyOutside) (id : Text) (l : Local) (es : List Event) (f : Fallback)
      → All IsQuiet es
      → Silent (after_sync parse_key marshal write_file parse_scheme o id l es f)
  unfolding after_sync
  after_sync-Silent o id l es f h = elim (Bool-cases f.gave_up) [
    | inl e ↦ simp e (h, tt)
    | inr e ↦ simp e (h, with_target-Silent o f.state l _)
  ]

  sync_first-Silent :
      (o : ProxyOutside) (id : Text) (l : Local) (c : Client)
      → Silent (sync_first parse_key marshal write_file parse_scheme o id l c)
  unfolding sync_first
  sync_first-Silent o id l c =
      let c' : Client = record c { files = l.files } in
      let r = sync_all parse_scheme o.outside false c' in
      after_sync-Silent o id (record l { files = r.client.files }) r.events
        (sync_or_cache o.now (succeeded r.error) o.cache_file o.mark_ok r.client.state
          r.client.disk)
        (sync_all-KeepsQuiet parse_scheme o.outside c').0

  with_backend-Silent :
      (o : ProxyOutside) (id : Text) (b : Local) (c : Client)
      → Silent (with_backend parse_key marshal write_file parse_scheme o id b c)
  unfolding with_backend
  with_backend-Silent o id b c = elim (Bool-cases (is_made b.made)) [
    | inr k ↦ simp k tt
    | inl k ↦ simp k (sync_first-Silent o id b c)
  ]

  -- Up to its dials nk proxy starts no sign-in, whatever its session, its snapshot and the backend
  -- are: neither in its sync nor in EnsureCert.
  pub proxy-IsSilent :
      (o : ProxyOutside) (id port : Text) (c : Client)
      → All IsSilent (proxy parse_key marshal write_file parse_scheme o id port c).events
  unfolding proxy
  proxy-IsSilent o id port c =
      let l = begin parse_key marshal write_file parse_scheme o c in
      elim (Bool-cases (is_empty id || is_empty port)) [
        | inl e ↦ simp e tt
        | inr e ↦ elim (Bool-cases (stale o.now c.state || is_none (target_by_id c.state id))) [
          | inr f ↦ simp (e, f) (with_target-Silent o c.state l _)
          | inl f ↦ simp (e, f) (with_backend-Silent o id (backend o.start l) c)
        ]
      ]
