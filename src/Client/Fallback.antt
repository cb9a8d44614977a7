-- ===== src/Client/Fallback.antt =====
-- internal/client/client.go: SyncOrCache. How Sync ends is an argument: the state that it leaves,
-- and whether it reported an error.
use nk.Base.{
  ◌≡◌, refl, ◌∙◌, inl, inr, ◌⊎◌, Bool, true, false, not, Option, none, some, arith, if◌then◌else◌,
  Bool-cases,
}
use nk.Base.Text.{is_empty}
use nk.Base.Clock.{Time}
use nk.State.{State, Cache, has_cached_data}
use nk.State.Disk.{Disk, Loaded, Failure, load_cache, mark_sync_failed, load_cache-server}

-- What a command goes on with: the state, the files, and whether it stops with an error.
pub record Fallback : Type 0 where
  pub state : State
  pub disk : Disk
  pub gave_up : Bool

-- SyncOrCache behind a failed sync
unfoldable pub from_cache : Time → Bool → Option Failure → State → Disk → Fallback
unfolding has_cached_data mark_sync_failed
from_cache now saved (some e) s d = record { state = s; disk = d; gave_up = true }
from_cache now saved none s d =
    if not (has_cached_data s)
    then record { state = s; disk = d; gave_up = true }
    else let marked = mark_sync_failed now saved s d in
      record { state = marked.0; disk = marked.1; gave_up = false }

-- SyncOrCache; `synced` is Sync's success, `saved` that of the write that marks the failure.
unfoldable pub sync_or_cache : Time → Bool → Loaded Cache → Bool → State → Disk → Fallback
unfolding load_cache from_cache
sync_or_cache now synced file saved s d =
    if synced
    then record { state = s; disk = d; gave_up = false }
    else from_cache now saved (load_cache file s).1 (load_cache file s).0 d

abbrev IsMarked : Time → Option Failure → State → Fallback → Type 0
IsMarked now o s f =
    (o ≡ none)
    × (has_cached_data f.state ≡ true)
    × (f.state.failed_at ≡ now)
    × (f.state.server ≡ s.server)

from_cache-IsMarked :
    (now : Time) (saved : Bool) (o : Option Failure) (s : State) (d : Disk)
    → (from_cache now saved o s d).gave_up ≡ false
    → IsMarked now o s (from_cache now saved o s d)
unfolding from_cache mark_sync_failed has_cached_data
from_cache-IsMarked now saved (some x) s d h = cc
from_cache-IsMarked now saved none s d h = elim (Bool-cases (not (has_cached_data s))) [
  | inl e ↦ cc (rw e at h)
  | inr e ↦ rw e (refl, ground (arith, e), refl, refl)
]

load_cache-failed :
    (file : Loaded Cache) (s : State) → (load_cache file s).1 ≡ none → file.failed ≡ false
unfolding load_cache
load_cache-failed file s h = ground arith

-- A failed sync that does not stop the command goes on with a state that has targets and a
-- subject: the snapshot on disk loaded without an error, the state names no server or the server
-- in use, and it says that a sync failed now.
pub sync_or_cache-cached :
    (now : Time) (file : Loaded Cache) (saved : Bool) (s : State) (d : Disk)
    → (sync_or_cache now false file saved s d).gave_up ≡ false
    → let r = (sync_or_cache now false file saved s d).state in
      (file.failed ≡ false)
      × (has_cached_data r ≡ true)
      × (r.failed_at ≡ now)
      × ((is_empty r.server ≡ true) ⊎ (r.server ≡ s.api_url))
unfolding sync_or_cache
sync_or_cache-cached now file saved s d h =
    let (o, cached, marked, server) =
      from_cache-IsMarked now saved (load_cache file s).1 (load_cache file s).0 d h in
    let (from, known) = load_cache-server file s o in
    (
      load_cache-failed file s o,
      cached,
      marked,
      elim known [ inl e ↦ inl (rw server e) | inr e ↦ inr (server ∙ e) ],
    )
