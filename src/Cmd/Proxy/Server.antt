-- ===== src/Cmd/Proxy/Server.antt =====
-- internal/cmd/proxy.go: whose snapshot nk proxy dials by.
use nk.Base.{
  ◌≡◌, refl, sym, ap, ◌∙◌, ◌⊎◌, inl, inr, Bool, true, false, ◌&&◌, ◌||◌, not, List, [], ◌∷◌, Option,
  none, some, Bool-cases,
}
use nk.Base.Text.{Text, is_empty, text_eq}
use nk.Base.Clock.{Time, pos}
use nk.State.{State, Target, Ca, Cache, target_by_id, ca_by_id, has_cached_data}
use nk.State.Disk.{Disk, Loaded, Failure, load_cache, mark_sync_failed}
use nk.Ssh.Certs.{PublicKey, cert_valid, cert_covers}
use nk.Client.Cert.{Write, CertError}
use nk.Client.New.{Local, is_made, backend, cert_at}
use nk.Client.Fallback.{Fallback, from_cache, sync_or_cache, sync_or_cache-cached}
use nk.Client.Sync.{Client, Event, Attempt, SyncError, sync_all}
use nk.Client.Sync.Answer.{Ends}
use nk.Client.Sync.Fresh.{sync_all-Ends}
use nk.Cmd.Proxy.{
  Dialed, ProxyRun, ProxyOutside, stale, is_none, dial, renewed, certify, with_authority,
  with_target, after_sync, sync_first, succeeded, with_backend, proxy, begin,
}

-- The snapshot names no server, or the server in use.
abbrev pub IsOwn : State → Type 0
IsOwn s = (is_empty s.server ≡ true) ⊎ (s.server ≡ s.api_url)

from_cache-api_url :
    (now : Time) (saved : Bool) (o : Option Failure) (s : State) (d : Disk)
    → (from_cache now saved o s d).state.api_url ≡ s.api_url
unfolding from_cache mark_sync_failed
from_cache-api_url now saved (some e) s d = refl
from_cache-api_url now saved none s d = elim (Bool-cases (not (has_cached_data s))) [
  | inl e ↦ rw e refl
  | inr e ↦ rw e refl
]

load_cache-api_url : (file : Loaded Cache) (s : State) → (load_cache file s).0.api_url ≡ s.api_url
unfolding load_cache
load_cache-api_url file s = elim (Bool-cases file.failed) [
  | inl e ↦ simp e refl
  | inr e ↦
      elim (Bool-cases
        (not (is_empty file.value.server) && not (text_eq file.value.server s.api_url))) [
          | inl f ↦ simp (e, f) refl
          | inr f ↦ simp (e, f) refl
        ]
]

-- Behind a sync of a run, the state that a command goes on with.
fallback-IsOwn :
    (now : Time) (file : Loaded Cache) (mark : Bool) (tries : List Attempt) (b c : Client)
    (e : Option SyncError)
    → Ends tries b c e
    → (sync_or_cache now (succeeded e) file mark c.state c.disk).gave_up ≡ false
    → IsOwn (sync_or_cache now (succeeded e) file mark c.state c.disk).state
fallback-IsOwn now file mark tries b c none (u, (a, m, (res, r, k)), d, f) h =
    unfold sync_or_cache in inr (ap (λ (x : Cache). x.server) k ∙ sym u)
fallback-IsOwn now file mark tries b c (some x) h g =
    let (ok, data_cached, marked, own) = sync_or_cache-cached now file mark c.state c.disk g in
    let same =
      from_cache-api_url now mark (load_cache file c.state).1 (load_cache file c.state).0 c.disk
      ∙ load_cache-api_url file c.state in
    elim own [ inl e ↦ inl e | inr e ↦ inr (e ∙ (unfold sync_or_cache in sym same)) ]

-- What a connection goes by.
abbrev pub DialsOwn : State → Option Dialed → Type 0
DialsOwn s none = Unit
DialsOwn s (some x) = IsOwn s

module _ (parse_key : Text → Option PublicKey) (marshal : PublicKey → Text)
    (write_file : Text → Option Text → Write) (parse_scheme : Text → Option Text) where
  abbrev Owns : ProxyRun → Type 0
  Owns r = DialsOwn r.state r.dialed

  dial-Owns :
      (o : ProxyOutside) (s : State) (t : Target) (ca : Ca) (cert : Option Text)
      → IsOwn s
      → Owns (dial parse_key marshal write_file parse_scheme o s t ca cert)
  unfolding dial
  dial-Owns o s t ca cert h = elim (Bool-cases o.agent_ok) [ inl e ↦ simp e h | inr e ↦ simp e tt ]

  renewed-Owns :
      (o : ProxyOutside) (s : State) (t : Target) (ca : Ca) (r : Option Text × Option CertError)
      → IsOwn s
      → Owns (renewed parse_key marshal write_file parse_scheme o s t ca r)
  unfolding renewed
  renewed-Owns o s t ca (cert, none) h = dial-Owns o s t ca cert h
  renewed-Owns o s t ca (cert, some e) h = tt

  certify-Owns :
      (o : ProxyOutside) (s : State) (l : Local) (t : Target) (ca : Ca)
      → IsOwn s
      → Owns (certify parse_key marshal write_file parse_scheme o s l t ca)
  unfolding certify
  certify-Owns o s l t ca h =
      let file = cert_at t.id l.files in
      elim (Bool-cases (cert_valid parse_key marshal o.now file ca (pos 0))) [
        | inr v ↦ elim (Bool-cases (is_made (backend o.start l).made)) [
          | inl k ↦ simp (v, k) (renewed-Owns o s t ca _ h)
          | inr k ↦ simp (v, k) tt
        ]
        | inl v ↦ elim (Bool-cases (cert_covers parse_key marshal file t)) [
          | inl u ↦ simp (v, u) (dial-Owns o s t ca file h)
          | inr u ↦ elim (Bool-cases (is_made (backend o.start l).made)) [
            | inl k ↦ simp (v, u, k) (dial-Owns o s t ca _ h)
            | inr k ↦ simp (v, u, k) (dial-Owns o s t ca _ h)
          ]
        ]
      ]

  with_authority-Owns :
      (o : ProxyOutside) (s : State) (l : Local) (t : Target) (c : Option Ca)
      → IsOwn s
      → Owns (with_authority parse_key marshal write_file parse_scheme o s l t c)
  unfolding with_authority
  with_authority-Owns o s l t none h = tt
  with_authority-Owns o s l t (some ca) h = certify-Owns o s l t ca h

  with_target-Owns :
      (o : ProxyOutside) (s : State) (l : Local) (t : Option Target)
      → IsOwn s
      → Owns (with_target parse_key marshal write_file parse_scheme o s l t)
  unfolding with_target
  with_target-Owns o s l none h = tt
  with_target-Owns o s l (some t) h = with_authority-Owns o s l t (ca_by_id s t.ca_id) h

  after_sync-Owns :
      (o : ProxyOutside) (id : Text) (l : Local) (es : List Event) (f : Fallback)
      → (f.gave_up ≡ false → IsOwn f.state)
      → Owns (after_sync parse_key marshal write_file parse_scheme o id l es f)
  unfolding after_sync
  after_sync-Owns o id l es f h = elim (Bool-cases f.gave_up) [
    | inl e ↦ simp e tt
    | inr e ↦ simp e (with_target-Owns o f.state l (target_by_id f.state id) (h e))
  ]

  sync_first-Owns :
      (o : ProxyOutside) (id : Text) (l : Local) (c : Client)
      → Owns (sync_first parse_key marshal write_file parse_scheme o id l c)
  unfolding sync_first
  sync_first-Owns o id l c =
      let c' : Client = record c { files = l.files } in
      let r = sync_all parse_scheme o.outside false c' in
      after_sync-Owns o id (record l { files = r.client.files }) r.events
        (sync_or_cache o.now (succeeded r.error) o.cache_file o.mark_ok r.client.state
          r.client.disk)
        (fallback-IsOwn o.now o.cache_file o.mark_ok
          (o.outside.first ∷ o.outside.again ∷ o.outside.last ∷ []) c' r.client r.error
          (sync_all-Ends parse_scheme o.outside false c'))

  with_backend-Owns :
      (o : ProxyOutside) (id : Text) (b : Local) (c : Client)
      → Owns (with_backend parse_key marshal write_file parse_scheme o id b c)
  unfolding with_backend
  with_backend-Owns o id b c = elim (Bool-cases (is_made b.made)) [
    | inr k ↦ simp k tt
    | inl k ↦ simp k (sync_first-Owns o id b c)
  ]

  -- From a state whose snapshot names no server or the server in use, nk proxy dials only by a
  -- snapshot that names none or the server in use too: whether it syncs or not, however the sync
  -- ends, and whatever snapshot is on disk.
  pub proxy-DialsOwn :
      (o : ProxyOutside) (id port : Text) (c : Client)
      → IsOwn c.state
      → let r = proxy parse_key marshal write_file parse_scheme o id port c in
        DialsOwn r.state r.dialed
  unfolding proxy
  proxy-DialsOwn o id port c h = elim (Bool-cases (is_empty id || is_empty port)) [
    | inl e ↦ simp e tt
    | inr e ↦ elim (Bool-cases (stale o.now c.state || is_none (target_by_id c.state id))) [
      | inr f ↦
          simp (e, f)
            (with_target-Owns o c.state (begin parse_key marshal write_file parse_scheme o c)
              (target_by_id c.state id) h)
      | inl f ↦
          simp (e, f)
            (with_backend-Owns o id
              (backend o.start (begin parse_key marshal write_file parse_scheme o c)) c)
    ]
  ]
