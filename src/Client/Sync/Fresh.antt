-- ===== src/Client/Sync/Fresh.antt =====
-- internal/client/client.go: the snapshot, the files and the disk that Sync leaves.
use nk.Base.{
  ◌≡◌, ap, refl, ◌∙◌, inl, inr, ℕ, Bool, true, false, List, [], ◌∷◌, Option, none, some, Member,
  ltb, Bool-cases,
}
use nk.Base.Text.{Text}
use nk.State.{State}
use nk.State.Disk.{Disk}
use nk.Client.Login.{
  Login, has_session, not_signed_in, device_login, Poll, polling, signed_in, failed, ensure_session,
  poll_device_token,
}
use nk.Client.Login.Device.{
  Begun, begun, not_begun, Shown, LoginEnd, login_done, waiting, login_failed, SignIn, LoginRun,
  with_token, store_token, on_poll, on_begun,
}
use nk.Client.Login.Device
use nk.Client.Trust.{TrustError, Machine, pin_server, confirm_server}
use nk.Client.Trust.Kept.{IsPinned, pin_server-IsPinned, IsConfirmed, confirm_server-IsConfirmed}
use nk.Client.Sync.{
  SyncError, Attempt, Outside, Client, Event, SyncRun, behind, fetch, signed_in_as, settled,
  signs_out, trusted, sign_in_run, on_login, with_login, sync, log_in_again, retry_login,
  sync_confirmed, on_first, sync_pinned, sync_all, fails_untrusted,
}
use nk.Client.Sync.Answer.{Past, Ends, fetch-Ends}

-- The same server and snapshot.
abbrev pub SameServer : State → State → Type 0
SameServer s t = (t.api_url ≡ s.api_url) × (t.cache ≡ s.cache)

store_token-SameServer :
    (a : SignIn) (t : Text) (n : ℕ) (s : State) (d : Disk) (shown : List Shown)
    → SameServer s (store_token a t n s d shown).state
unfolding store_token with_token
store_token-SameServer a t n s d shown = elim (Bool-cases (ltb 0 n)) [
  | inl e ↦ simp e (refl, refl)
  | inr e ↦ simp e (refl, refl)
]

on_poll-SameServer :
    (a : SignIn) (p : Poll) (s : State) (d : Disk) (shown : List Shown)
    → SameServer s (on_poll a p s d shown).state
unfolding on_poll
on_poll-SameServer a (signed_in t n) s d shown = store_token-SameServer a t n s d shown
on_poll-SameServer a (failed e) s d shown = (refl, refl)
on_poll-SameServer a (polling p waits) s d shown = (refl, refl)

on_begun-SameServer :
    (a : SignIn) (b : Begun) (s : State) (d : Disk) → SameServer s (on_begun a b s d).state
unfolding on_begun
on_begun-SameServer a (not_begun e) s d = (refl, refl)
on_begun-SameServer a (begun auth) s d =
    on_poll-SameServer a (poll_device_token a.dpop auth.interval a.exchanges) s d _

Past-more :
    (tries : List Attempt) (b c c' : Client)
    → Past tries b c
    → SameServer c.state c'.state
    → Past tries b c'
Past-more tries b c c' (u, inl p) (v, q) = (v ∙ u, inl (q ∙ p))
Past-more tries b c c' (u, inr (a, m, (res, e, p))) (v, q) = (v ∙ u, inr (a, m, (res, e, q ∙ p)))

Past-of_Ends :
    (tries : List Attempt) (b c : Client) (e : Option SyncError) → Ends tries b c e → Past tries b c
Past-of_Ends tries b c none (u, i, d, h) = (u, inr i)
Past-of_Ends tries b c (some e) h = h

IsPinned-SameServer :
    (m : Machine) (s t : State) (e : Option TrustError) → IsPinned m s t e → SameServer s t
IsPinned-SameServer m s t none ((u, v, w), h) = (u, w)
IsPinned-SameServer m s t (some e) (u, v, w) = (u, w)

IsConfirmed-SameServer :
    (m : Machine) (i : Bool) (s : State) (d : Disk) (t : State) (after : Disk)
    (e : Option TrustError)
    → IsConfirmed m i s d t after e
    → SameServer s t
IsConfirmed-SameServer m i s d t after none (p, q, y, (roots, a, ((u, v, w), h))) = (u, w)
IsConfirmed-SameServer m i s d t after (some e) (inl (same, unchanged)) =
    (ap (λ (x : State). x.api_url) same, ap (λ (x : State). x.cache) same)
IsConfirmed-SameServer m i s d t after (some e) (inr (p, q, y, (roots, a, ((u, v, w), h)))) = (u, w)

module _ (parse_scheme : Text → Option Text) (tries : List Attempt) (b : Client) where
  abbrev Ended : SyncRun → Type 0
  Ended r = Ends tries b r.client r.error

  signed_in_as-Ends :
      (a : Attempt) (l : LoginEnd) (c : Client) (next : Client → SyncRun)
      → Past tries b c
      → Ended (next c)
      → Ended (signed_in_as a l c next)
  unfolding signed_in_as
  signed_in_as-Ends a login_done c next p h = h
  signed_in_as-Ends a waiting c next p h = p
  signed_in_as-Ends a (login_failed f) c next p h = p

  on_login-Ends :
      (a : Attempt) (l : Login) (c : Client) (next : Client → SyncRun)
      → Past tries b c
      → ((c' : Client) → Past tries b c' → Ended (next c'))
      → Ended (on_login parse_scheme a l c next)
  unfolding on_login sign_in_run Device.device_login
  on_login-Ends a has_session c next p h = h c p
  on_login-Ends a not_signed_in c next p h = p
  on_login-Ends a device_login c next p h =
      let r =
        on_begun a.sign_in (Device.begin_device_auth parse_scheme a.sign_in.answer) c.state
          c.disk in
      let c' : Client = record c { state = r.state; disk = r.disk } in
      let q = Past-more tries b c c' p (on_begun-SameServer a.sign_in _ c.state c.disk) in
      signed_in_as-Ends a r.ended c' next q (h c' q)

  sync-Ends :
      (a : Attempt) (i : Bool) (c : Client)
      → Member a tries
      → Past tries b c
      → Ended (sync parse_scheme a i c)
  unfolding sync with_login
  sync-Ends a i c m p =
      on_login-Ends a (ensure_session a.now c.state i) c (fetch a) p
        (λ c' q. fetch-Ends tries b a c' m q)

  retry_login-Ends :
      (o : Outside) (i : Bool) (r : SyncRun)
      → Member o.last tries
      → Ended r
      → Ended (retry_login parse_scheme o i r)
  unfolding retry_login log_in_again with_login
  retry_login-Ends o i r m h = elim (Bool-cases (settled i r.error)) [
    | inl e ↦ simp e h
    | inr e ↦
        let c = signs_out r.client in
        let p =
          Past-more tries b r.client c (Past-of_Ends tries b r.client r.error h) (refl, refl) in
        simp e (
          on_login-Ends o.relogin (ensure_session o.relogin.now c.state true) c
            (sync parse_scheme o.last false) p (λ c' q. sync-Ends o.last false c' m q))
  ]

  sync_confirmed-Ends :
      (o : Outside) (i : Bool) (es : List Event) (c : Client) (e : Option TrustError)
      → Member o.again tries
      → Member o.last tries
      → Past tries b c
      → Ended (sync_confirmed parse_scheme o i es c e)
  unfolding sync_confirmed
  sync_confirmed-Ends o i es c (some e) m n p = p
  sync_confirmed-Ends o i es c none m n p =
      retry_login-Ends o i (behind es (sync parse_scheme o.again i c)) n (sync-Ends o.again i c m p)

  on_first-Ends :
      (o : Outside) (i : Bool) (r : SyncRun)
      → Member o.again tries
      → Member o.last tries
      → Ended r
      → Ended (on_first parse_scheme o i r)
  unfolding on_first
  on_first-Ends o i r m n h = elim (Bool-cases (fails_untrusted parse_scheme r.error)) [
    | inr e ↦ simp e (retry_login-Ends o i r n h)
    | inl e ↦
        let t = confirm_server o.machine i r.client.state r.client.disk in
        let same =
          IsConfirmed-SameServer o.machine i r.client.state r.client.disk t.state t.disk t.error
            (confirm_server-IsConfirmed o.machine i r.client.state r.client.disk) in
        simp e (
          sync_confirmed-Ends o i r.events (trusted r.client t) t.error m n (
            Past-more tries b r.client (trusted r.client t)
              (Past-of_Ends tries b r.client r.error h) same))
  ]

  sync_pinned-Ends :
      (o : Outside) (i : Bool) (c : Client) (e : Option TrustError)
      → Member o.first tries
      → Member o.again tries
      → Member o.last tries
      → Past tries b c
      → Ended (sync_pinned parse_scheme o i c e)
  unfolding sync_pinned
  sync_pinned-Ends o i c (some e) k m n p = p
  sync_pinned-Ends o i c none k m n p =
      on_first-Ends o i (sync parse_scheme o.first i c) m n (sync-Ends o.first i c k p)

-- Sync never changes the server. Where it ends without an error the snapshot is an answer of one of
-- its attempts, marked with the server and the time, the disk has the state, and every certificate
-- file is one of a target of the snapshot; where it ends with an error the snapshot is the one from
-- before or such an answer.
pub sync_all-Ends :
    (parse_scheme : Text → Option Text) (o : Outside) (i : Bool) (c : Client)
    → let r = sync_all parse_scheme o i c in
      Ends (o.first ∷ o.again ∷ o.last ∷ []) c r.client r.error
unfolding sync_all
sync_all-Ends parse_scheme o i c =
    let t = pin_server o.machine c.state c.disk in
    let same =
      IsPinned-SameServer o.machine c.state t.state t.error
        (pin_server-IsPinned o.machine c.state c.disk) in
    sync_pinned-Ends parse_scheme (o.first ∷ o.again ∷ o.last ∷ []) c o i (trusted c t) t.error
      (inl refl) (inr (inl refl)) (inr (inr (inl refl))) (same.0, inl same.1)
