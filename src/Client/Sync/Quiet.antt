-- ===== src/Client/Sync/Quiet.antt =====
-- internal/client/client.go: a sync under ssh, which is not interactive.
use nk.Base.{
  ◌≡◌, refl, ◌∙◌, inl, inr, Bool, true, false, not, [], Option, none, some, All, All-append,
  if◌then◌else◌, Bool-cases,
}
use nk.Base.Text.{Text}
use nk.Base.Clock.{Time}
use nk.State.{State, Cache, session_valid, is_service_account}
use nk.State.Disk.{Disk, Failure}
use nk.Ssh.Certs.{Files}
use nk.Client.Login.{Login, has_session, not_signed_in, device_login, ensure_session}
use nk.Client.Trust.{TrustError, confirm_server, pin_server}
use nk.Client.Trust.Kept.{IsPinned, pin_server-IsPinned}
use nk.Client.Sync.{
  Response, answered, rejected, SyncError, Attempt, Outside, Client, Event, access_requested,
  signing_in, configs_written, SyncRun, write_configs, keep_access, on_response, fetch, settled,
  trusted, on_login, with_login, sync, retry_login, sync_confirmed, on_first, sync_pinned, sync_all,
  fails_untrusted,
}

abbrev pub IsQuiet : Event → Type 0
IsQuiet access_requested = Unit
IsQuiet (signing_in shown) = ⊥
IsQuiet (configs_written s) = Unit

-- No sign-in was started, and the session is the one from before.
abbrev pub KeepsQuiet : Text → SyncRun → Type 0
KeepsQuiet token r = All IsQuiet r.events × (r.client.state.session_token ≡ token)

write_configs-KeepsQuiet :
    (a : Attempt) (s : State) (fs : Files) (o : Disk × Option Failure)
    → KeepsQuiet s.session_token (write_configs a s fs o)
unfolding write_configs
write_configs-KeepsQuiet a s fs (d, some e) = (tt, refl)
write_configs-KeepsQuiet a s fs (d, none) = elim (Bool-cases a.configs_ok) [
  | inl e ↦ simp e ((tt, tt), refl)
  | inr e ↦ simp e ((tt, tt), refl)
]

keep_access-KeepsQuiet :
    (a : Attempt) (cache : Cache) (c : Client) (o : Files × Bool)
    → KeepsQuiet c.state.session_token (keep_access a cache c o)
unfolding keep_access
keep_access-KeepsQuiet a cache c (fs, false) = (tt, refl)
keep_access-KeepsQuiet a cache c (fs, true) =
    write_configs-KeepsQuiet a (record c.state { cache = cache }) fs _

on_response-KeepsQuiet :
    (a : Attempt) (r : Response) (c : Client) → KeepsQuiet c.state.session_token (on_response a r c)
unfolding on_response
on_response-KeepsQuiet a (rejected r) c = (tt, refl)
on_response-KeepsQuiet a (answered res) c = keep_access-KeepsQuiet a _ c _

fetch-KeepsQuiet : (a : Attempt) (c : Client) → KeepsQuiet c.state.session_token (fetch a c)
unfolding fetch
fetch-KeepsQuiet a c = let (q, e) = on_response-KeepsQuiet a a.response c in ((tt, q), e)

settled_quietly : (e : Option SyncError) → settled false e ≡ true
settled_quietly none = refl
settled_quietly (some e) = refl

abbrev IsSilent : Login → Type 0
IsSilent has_session = Unit
IsSilent not_signed_in = Unit
IsSilent device_login = ⊥

choice-IsSilent :
    (a b : Bool)
    → IsSilent (
        if a
        then has_session
        else if b
        then has_session
        else if not false
        then not_signed_in
        else device_login)
choice-IsSilent true b = tt
choice-IsSilent false true = tt
choice-IsSilent false false = tt

ensure_session-IsSilent : (now : Time) (s : State) → IsSilent (ensure_session now s false)
unfolding ensure_session
ensure_session-IsSilent now s = choice-IsSilent (is_service_account s) (session_valid now s)

IsPinned-token :
    (o : Outside) (s t : State) (e : Option TrustError)
    → IsPinned o.machine s t e
    → t.session_token ≡ s.session_token
IsPinned-token o s t none ((u, v, w), h) = v
IsPinned-token o s t (some e) (u, v, w) = v

module _ (parse_scheme : Text → Option Text) where
  on_login-KeepsQuiet :
      (a : Attempt) (l : Login) (c : Client)
      → IsSilent l
      → KeepsQuiet c.state.session_token (on_login parse_scheme a l c (fetch a))
  unfolding on_login
  on_login-KeepsQuiet a has_session c h = fetch-KeepsQuiet a c
  on_login-KeepsQuiet a not_signed_in c h = (tt, refl)
  on_login-KeepsQuiet a device_login c h = elim h [ ]

  sync-KeepsQuiet :
      (a : Attempt) (c : Client) → KeepsQuiet c.state.session_token (sync parse_scheme a false c)
  unfolding sync with_login
  sync-KeepsQuiet a c = on_login-KeepsQuiet a _ c (ensure_session-IsSilent a.now c.state)

  on_first-KeepsQuiet :
      (o : Outside) (token : Text) (r : SyncRun)
      → KeepsQuiet token r
      → KeepsQuiet token (on_first parse_scheme o false r)
  unfolding on_first retry_login sync_confirmed confirm_server
  on_first-KeepsQuiet o token r (q, e) = elim (Bool-cases (fails_untrusted parse_scheme r.error)) [
    | inr f ↦ simp (f, settled_quietly r.error) (q, e)
    | inl f ↦ simp f (All-append IsQuiet r.events [] q tt, e)
  ]

  sync_pinned-KeepsQuiet :
      (o : Outside) (c : Client) (e : Option TrustError)
      → KeepsQuiet c.state.session_token (sync_pinned parse_scheme o false c e)
  unfolding sync_pinned
  sync_pinned-KeepsQuiet o c (some e) = (tt, refl)
  sync_pinned-KeepsQuiet o c none =
      on_first-KeepsQuiet o c.state.session_token (sync parse_scheme o.first false c)
        (sync-KeepsQuiet o.first c)

  -- A sync that is not interactive never starts a sign-in, whatever the backend answers, and keeps
  -- the session that it has.
  pub sync_all-KeepsQuiet :
      (o : Outside) (c : Client)
      → KeepsQuiet c.state.session_token (sync_all parse_scheme o false c)
  unfolding sync_all
  sync_all-KeepsQuiet o c =
      let t = pin_server o.machine c.state c.disk in
      let (q, e) = sync_pinned-KeepsQuiet o (trusted c t) t.error in
      let v =
        IsPinned-token o c.state t.state t.error (pin_server-IsPinned o.machine c.state c.disk) in
      (q, e ∙ v)
