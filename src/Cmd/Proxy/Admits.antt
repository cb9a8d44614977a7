-- ===== src/Cmd/Proxy/Admits.antt =====
-- internal/cmd/proxy.go: what nk proxy has made sure of when it dials.
use nk.Base.{
  ◌≡◌, ◌≢◌, refl, sym, ap, ◌∙◌, ◌⊎◌, inl, inr, Bool, true, false, ◌||◌, List, Option, none, some,
  Bool-cases,
}
use nk.Base.Text.{Text, is_empty}
use nk.Base.Clock.{Time, pos}
use nk.State.{State, Target, Ca, target_by_id, ca_by_id}
use nk.Ssh.Certs.{PublicKey, cert_valid, cert_covers}
use nk.Ssh.Keys.{pub_key}
use nk.Client.Cert.{Write, CertError, IsAtomic, IsEnsured, ensure_cert-IsEnsured, IsEnsured-valid}
use nk.Client.New.{Local, is_made, backend, backend_of, cert_at}
use nk.Client.Fallback.{Fallback, sync_or_cache}
use nk.Client.Sync.{Client, Event, sync_all}
use nk.Cmd.Proxy.{
  ProxyError, Dialed, ProxyRun, ProxyOutside, stale, is_none, dial, renewed, certify,
  with_authority, with_target, after_sync, sync_first, succeeded, with_backend, proxy, begin,
}

module _ (parse_key : Text → Option PublicKey) (marshal : PublicKey → Text)
    (write_file : Text → Option Text → Write) (parse_scheme : Text → Option Text) where
  -- The certificate is one of the CA and valid now.
  abbrev pub IsUsable : Time → Option Text → Ca → Type 0
  IsUsable now cert ca = cert_valid parse_key marshal now cert ca (pos 0) ≡ true

  -- The certificate on disk was valid but lacked an account, and client.New, run for a new one, has
  -- changed what is on disk.
  abbrev pub IsLost : ProxyOutside → Local → Target → Ca → Type 0
  IsLost o l t ca =
      IsUsable o.now (cert_at t.id l.files) ca
      × (cert_covers parse_key marshal (cert_at t.id l.files) t ≡ false)
      × (cert_at t.id (backend o.start l).files ≢ cert_at t.id l.files)

  -- How nk proxy may end: with an error, or with a connection to a target of its snapshot.
  abbrev pub IsAdmitted :
      ProxyOutside → Local → Text → State → Option Dialed → Option ProxyError → Type 0
  IsAdmitted o l id s none e = ¬ (e ≡ none)
  IsAdmitted o l id s (some x) e =
      (e ≡ none)
      × (target_by_id s id ≡ some x.target)
      × (ca_by_id s x.target.ca_id ≡ some x.authority)
      × (IsUsable o.now x.certificate x.authority ⊎ IsLost o l x.target x.authority)

  abbrev Admits : ProxyOutside → Local → Text → ProxyRun → Type 0
  Admits o l id r = IsAdmitted o l id r.state r.dialed r.error

  dial-Admits :
      (o : ProxyOutside) (l : Local) (id : Text) (s : State) (t : Target) (ca : Ca)
      (cert : Option Text)
      → target_by_id s id ≡ some t
      → ca_by_id s t.ca_id ≡ some ca
      → IsUsable o.now cert ca ⊎ IsLost o l t ca
      → Admits o l id (dial parse_key marshal write_file parse_scheme o s t ca cert)
  unfolding dial
  dial-Admits o l id s t ca cert p q u = elim (Bool-cases o.agent_ok) [
    | inl e ↦ simp e (refl, p, q, u)
    | inr e ↦ simp e (λ x. cc)
  ]

  renewed-Admits :
      (o : ProxyOutside) (l : Local) (id : Text) (s : State) (t : Target) (ca : Ca)
      (file : Option Text) (r : Option Text × Option CertError)
      → target_by_id s id ≡ some t
      → ca_by_id s t.ca_id ≡ some ca
      → IsEnsured parse_key marshal write_file o.now file t ca r
      → Admits o l id (renewed parse_key marshal write_file parse_scheme o s t ca r)
  unfolding renewed
  renewed-Admits o l id s t ca file (cert, none) p q h =
      dial-Admits o l id s t ca cert p q
        (inl (IsEnsured-valid parse_key marshal write_file o.now file cert t ca h))
  renewed-Admits o l id s t ca file (cert, some e) p q h = λ x. cc

  -- What is on disk behind client.New is usable, or what was there has changed.
  found_cases :
      (o : ProxyOutside) (l : Local) (t : Target) (ca : Ca)
      → IsUsable o.now (cert_at t.id l.files) ca
      → cert_covers parse_key marshal (cert_at t.id l.files) t ≡ false
      → IsUsable o.now (cert_at t.id (backend o.start l).files) ca ⊎ IsLost o l t ca
  found_cases o l t ca v u =
      by_case (cert_at t.id l.files) (cert_at t.id (backend o.start l).files) v u
    where
      by_case :
          (file found : Option Text)
          → IsUsable o.now file ca
          → cert_covers parse_key marshal file t ≡ false
          → IsUsable o.now found ca
            ⊎ (IsUsable o.now file ca
                × (cert_covers parse_key marshal file t ≡ false)
                × (found ≢ file))
      by_case file found v u =
          elim (Bool-cases (cert_valid parse_key marshal o.now found ca (pos 0))) [
            | inl e ↦ inl e
            | inr e ↦ inr (v, u, λ same. cc (sym v ∙ (rw same at e)))
          ]

  ensured_cases :
      (o : ProxyOutside) (l : Local) (t : Target) (ca : Ca) (file : Option Text)
      (r : Option Text × Option CertError)
      → IsUsable o.now file ca ⊎ IsLost o l t ca
      → IsEnsured parse_key marshal write_file o.now file t ca r
      → IsUsable o.now r.0 ca ⊎ IsLost o l t ca
  ensured_cases o l t ca file (after, none) v h =
      inl (IsEnsured-valid parse_key marshal write_file o.now file after t ca h)
  ensured_cases o l t ca file (after, some e) v h = rw h v

  certify-Admits :
      (o : ProxyOutside) (id : Text) (s : State) (l : Local) (t : Target) (ca : Ca)
      → IsAtomic parse_key marshal write_file
      → target_by_id s id ≡ some t
      → ca_by_id s t.ca_id ≡ some ca
      → Admits o l id (certify parse_key marshal write_file parse_scheme o s l t ca)
  unfolding certify
  certify-Admits o id s l t ca atomic p q =
      let file = cert_at t.id l.files in
      let b = backend o.start l in
      let found = cert_at t.id b.files in
      let ensured =
        ensure_cert-IsEnsured parse_key marshal write_file o.now s found t ca
          (pub_key o.start.removable b.key_file) o.signed atomic in
      elim (Bool-cases (cert_valid parse_key marshal o.now file ca (pos 0))) [
        | inr v ↦ elim (Bool-cases (is_made b.made)) [
          | inl k ↦ simp (v, k) (renewed-Admits o l id s t ca found _ p q ensured)
          | inr k ↦ simp (v, k) (λ x. cc)
        ]
        | inl v ↦ elim (Bool-cases (cert_covers parse_key marshal file t)) [
          | inl u ↦ simp (v, u) (dial-Admits o l id s t ca file p q (inl v))
          | inr u ↦ elim (Bool-cases (is_made b.made)) [
            | inl k ↦
                simp (v, u, k)
                  (dial-Admits o l id s t ca _ p q
                    (ensured_cases o l t ca found _ (found_cases o l t ca v u) ensured))
            | inr k ↦
                simp (v, u, k) (dial-Admits o l id s t ca found p q (found_cases o l t ca v u))
          ]
        ]
      ]

  with_authority-Admits :
      (o : ProxyOutside) (id : Text) (s : State) (l : Local) (t : Target) (c : Option Ca)
      → IsAtomic parse_key marshal write_file
      → target_by_id s id ≡ some t
      → ca_by_id s t.ca_id ≡ c
      → Admits o l id (with_authority parse_key marshal write_file parse_scheme o s l t c)
  unfolding with_authority
  with_authority-Admits o id s l t none a p q = λ x. cc
  with_authority-Admits o id s l t (some ca) a p q = certify-Admits o id s l t ca a p q

  with_target-Admits :
      (o : ProxyOutside) (id : Text) (s : State) (l : Local) (t : Option Target)
      → IsAtomic parse_key marshal write_file
      → target_by_id s id ≡ t
      → Admits o l id (with_target parse_key marshal write_file parse_scheme o s l t)
  unfolding with_target
  with_target-Admits o id s l none a p = λ x. cc
  with_target-Admits o id s l (some t) a p =
      with_authority-Admits o id s l t (ca_by_id s t.ca_id) a p refl

  -- Behind a sync client.New has run already, so nothing is lost.
  made_unchanged :
      (o : ProxyOutside) (l : Local) (ok : Bool) (t : Target) (ca : Ca)
      → l.made ≡ some ok
      → ¬ (IsLost o l t ca)
  unfolding backend backend_of
  made_unchanged o l ok t ca m (v, u, changed) = changed (rw m refl)

  made_already :
      (o : ProxyOutside) (l k : Local) (ok : Bool) (id : Text) (s : State) (x : Option Dialed)
      (e : Option ProxyError)
      → l.made ≡ some ok
      → IsAdmitted o l id s x e
      → IsAdmitted o k id s x e
  made_already o l k ok id s none e m h = h
  made_already o l k ok id s (some x) e m (a, b, c, inl u) = (a, b, c, inl u)
  made_already o l k ok id s (some x) e m (a, b, c, inr lost) =
      absurd (made_unchanged o l ok x.target x.authority m lost)

  made_ok : (m : Option Bool) → is_made m ≡ true → m ≡ some true
  made_ok none h = cc
  made_ok (some b) h = ap some h

  after_sync-Admits :
      (o : ProxyOutside) (id : Text) (l k : Local) (es : List Event) (f : Fallback)
      → IsAtomic parse_key marshal write_file
      → l.made ≡ some true
      → Admits o k id (after_sync parse_key marshal write_file parse_scheme o id l es f)
  unfolding after_sync
  after_sync-Admits o id l k es f a m = elim (Bool-cases f.gave_up) [
    | inl e ↦ simp e (λ x. cc)
    | inr e ↦
        let r =
          with_target parse_key marshal write_file parse_scheme o f.state l
            (target_by_id f.state id) in
        simp e (
          made_already o l k true id r.state r.dialed r.error m
            (with_target-Admits o id f.state l (target_by_id f.state id) a refl))
  ]

  sync_first-Admits :
      (o : ProxyOutside) (id : Text) (l k : Local) (c : Client)
      → IsAtomic parse_key marshal write_file
      → l.made ≡ some true
      → Admits o k id (sync_first parse_key marshal write_file parse_scheme o id l c)
  unfolding sync_first
  sync_first-Admits o id l k c a m =
      let r = sync_all parse_scheme o.outside false (record c { files = l.files }) in
      after_sync-Admits o id (record l { files = r.client.files }) k r.events
        (sync_or_cache o.now (succeeded r.error) o.cache_file o.mark_ok r.client.state
          r.client.disk)
        a m

  with_backend-Admits :
      (o : ProxyOutside) (id : Text) (b k : Local) (c : Client)
      → IsAtomic parse_key marshal write_file
      → Admits o k id (with_backend parse_key marshal write_file parse_scheme o id b c)
  unfolding with_backend
  with_backend-Admits o id b k c a = elim (Bool-cases (is_made b.made)) [
    | inr e ↦ simp e (λ x. cc)
    | inl e ↦ simp e (sync_first-Admits o id b k c a (made_ok b.made e))
  ]

  -- Where a write of a certificate is all or nothing: nk proxy ends with an error, or it dials the
  -- target that its snapshot has under this id, with the CA that its snapshot has for that target
  -- and with what is on disk as its certificate. That is a certificate of this CA that is valid
  -- now, with one exception: at the start there was such a certificate, it lacked an account, and
  -- client.New, run to get a new one, has changed what is on disk for the target.
  pub proxy-IsAdmitted :
      (o : ProxyOutside) (id port : Text) (c : Client)
      → IsAtomic parse_key marshal write_file
      → let r = proxy parse_key marshal write_file parse_scheme o id port c in
        IsAdmitted o
          (begin parse_key marshal write_file parse_scheme o c)
          id
          r.state
          r.dialed
          r.error
  unfolding proxy
  proxy-IsAdmitted o id port c a =
      let l = begin parse_key marshal write_file parse_scheme o c in
      elim (Bool-cases (is_empty id || is_empty port)) [
        | inl e ↦ simp e (λ x. cc)
        | inr e ↦ elim (Bool-cases (stale o.now c.state || is_none (target_by_id c.state id))) [
          | inr f ↦ simp (e, f) (with_target-Admits o id c.state l (target_by_id c.state id) a refl)
          | inl f ↦ simp (e, f) (with_backend-Admits o id (backend o.start l) l c a)
        ]
      ]
