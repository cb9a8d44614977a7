-- ===== src/State/Disk.antt =====
-- internal/state/state.go: what of a `State` goes to disk and comes back.
-- `fsutil.LoadJSON` and `fsutil.SaveJSON` are another library's: what a load leaves in memory, and
-- whether a write succeeds, are arguments.
use nk.Base.{Bool, true, ◌&&◌, not, Option, none, some, ◌≡◌, ◌⊎◌, arith, if◌then◌else◌}
use nk.Base.Text.{text_eq, text_eq_iff, is_empty}
use nk.Base.Clock.{Time}
use nk.State.{State, Config, Cache, empty_cache}

pub data Failure : Type 0 where
  load_failed saving_config saving_cache : Failure

-- config.json and cache.json
pub record Disk : Type 0 where
  pub config_json : Config
  pub cache_json : Cache

-- What a load left in its destination, and whether it reported an error.
pub record Loaded (A : Type 0) : Type 0 where
  pub value : A
  pub failed : Bool

-- State.LoadCache
unfoldable pub load_cache : Loaded Cache → State → State × Option Failure
unfolding text_eq
load_cache file s =
    if file.failed
    then (record s { cache = file.value }, some load_failed)
    else if not (is_empty file.value.server) && not (text_eq file.value.server s.api_url)
    then (record s { cache = empty_cache }, none)
    else (record s { cache = file.value }, none)

-- Load: the errors are only logged.
unfoldable pub load : Loaded Config → Loaded Cache → State → State
unfolding load_cache
load config_file cache_file zero =
    (load_cache cache_file (record zero { config = config_file.value })).0

-- State.Save; the Booleans say whether each write succeeds.
unfoldable pub save : Bool → Bool → State → Disk → Disk × Option Failure
save config_ok cache_ok s d =
    if config_ok
    then if cache_ok
      then (record { config_json = s.config; cache_json = s.cache }, none)
      else (record d { config_json = s.config }, some saving_cache)
    else (d, some saving_config)

-- State.MarkSyncFailed
unfoldable pub mark_sync_failed : Time → Bool → State → Disk → State × Disk
mark_sync_failed now ok s d =
    let s' = record s { cache = record s.cache { failed_at = now } } in
    (s', if ok then record d { cache_json = s'.cache } else d)

-- After a load without an error the snapshot is the one on disk, or empty; and it names no server
-- or the server in use, so a snapshot of another server is never used.
pub load_cache-server :
    (file : Loaded Cache) (s : State)
    → (load_cache file s).1 ≡ none
    → (((load_cache file s).0.cache ≡ file.value) ⊎ ((load_cache file s).0.cache ≡ empty_cache))
      × ((is_empty (load_cache file s).0.server ≡ true)
          ⊎ ((load_cache file s).0.server ≡ s.api_url))
unfolding load_cache
load_cache-server file s h = ground (arith, text_eq_iff file.value.server s.api_url)
