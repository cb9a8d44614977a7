-- ===== src/Client/Sync/Answer.antt =====
-- internal/client/client.go: how the steps of one sync end, from the answer to the ssh files.
use nk.Base.{
  ◌≡◌, refl, ap, ◌⊎◌, inl, inr, Bool, true, false, List, Option, none, some, map, All,
  All-of_Member, Member, Bool-cases,
}
use nk.Base.Text.{Text}
use nk.State.{State, Cache, Target}
use nk.State.Access.{AccessMessage}
use nk.State.Disk.{Disk, save}
use nk.Ssh.Certs.{Files, cert_name, cleanup_certs}
use nk.Ssh.Certs.Cleanup.{cleanup_certs_leaves}
use nk.Client.Sync.{
  Response, answered, rejected, SyncError, Attempt, Client, SyncRun, snapshot, write_configs,
  keep_access, on_response, fetch,
}

-- A file of a certificate of one of these targets.
abbrev pub OwnedBy : List Target → Text × Text → Type 0
OwnedBy targets f = Member f.0 (map (λ (t : Target). cert_name t.id) targets)

-- The snapshot is what one of these attempts was answered, marked with the server and the time.
abbrev pub IsAnswer : List Attempt → Text → Cache → Type 0
IsAnswer tries server cache =
    (a : Attempt) × Member a tries
    × ((res : AccessMessage) × (a.response ≡ answered res) × (cache ≡ snapshot a res server))

-- The same server, and the snapshot from before or an answer.
abbrev pub Past : List Attempt → Client → Client → Type 0
Past tries b c =
    (c.state.api_url ≡ b.state.api_url)
    × ((c.state.cache ≡ b.state.cache) ⊎ IsAnswer tries b.state.api_url c.state.cache)

-- How a sync may end: without an error the snapshot is an answer, the disk has the state, and each
-- certificate file is one of a target of the snapshot.
abbrev pub Ends : List Attempt → Client → Client → Option SyncError → Type 0
Ends tries b c (some e) = Past tries b c
Ends tries b c none =
    (c.state.api_url ≡ b.state.api_url)
    × IsAnswer tries b.state.api_url c.state.cache
    × (c.disk ≡ record { config_json = c.state.config; cache_json = c.state.cache })
    × All (OwnedBy c.state.cache.targets) c.files

module _ (tries : List Attempt) (b : Client) where
  abbrev Settles : SyncRun → Type 0
  Settles r = Ends tries b r.client r.error

  write_configs-Ends :
      (a : Attempt) (s : State) (fs : Files) (d : Disk)
      → s.api_url ≡ b.state.api_url
      → IsAnswer tries b.state.api_url s.cache
      → All (OwnedBy s.cache.targets) fs
      → Settles (write_configs a s fs (save a.config_ok a.cache_ok s d))
  unfolding write_configs save
  write_configs-Ends a s fs d u i h = elim (Bool-cases a.config_ok) [
    | inr e ↦ simp e (u, inr i)
    | inl e ↦ elim (Bool-cases a.cache_ok) [
      | inr f ↦ simp (e, f) (u, inr i)
      | inl f ↦ elim (Bool-cases a.configs_ok) [
        | inr g ↦ simp (e, f, g) (u, inr i)
        | inl g ↦ simp (e, f, g) (u, i, refl, h)
      ]
    ]
  ]

  keep_access-Ends :
      (a : Attempt) (cache : Cache) (c : Client) (o : Files × Bool)
      → Past tries b c
      → IsAnswer tries b.state.api_url cache
      → cleanup_certs a.removable cache.targets c.files ≡ o
      → Settles (keep_access a cache c o)
  unfolding keep_access
  keep_access-Ends a cache c (fs, false) p i h = p
  keep_access-Ends a cache c (fs, true) (u, p) i h =
      write_configs-Ends a (record c.state { cache = cache }) fs c.disk u i
        (All-of_Member _ fs (λ f m.
          (cleanup_certs_leaves a.removable cache.targets c.files f (ap (λ x. x.1) h)
            (rw (ap (λ x. x.0) h) m)).1))

  on_response-Ends :
      (a : Attempt) (r : Response) (c : Client)
      → Member a tries
      → a.response ≡ r
      → Past tries b c
      → Settles (on_response a r c)
  unfolding on_response
  on_response-Ends a (rejected r) c m e p = p
  on_response-Ends a (answered res) c m e (u, p) =
      keep_access-Ends a (snapshot a res c.state.api_url) c _ (u, p)
        (a, m, (res, e, ap (snapshot a res) u)) refl

  pub fetch-Ends :
      (a : Attempt) (c : Client) → Member a tries → Past tries b c → Settles (fetch a c)
  unfolding fetch
  fetch-Ends a c m p = on_response-Ends a a.response c m refl p
