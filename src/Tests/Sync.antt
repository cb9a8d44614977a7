-- ===== src/Tests/Sync.antt =====
-- internal/cmd/target.go: nk sync and nk rm at concrete inputs.
use nk.Base.{◌≡◌, refl, inl, true, false, [], ◌∷◌, none, some, All}
use nk.Base.Text.{Text, codes}
use nk.Base.Clock.{Time}
use nk.Manual.{parse_probe}
use nk.Manual.Script.{probe_command}
use nk.Cmd.Sync.{run_on_host, World, Failure, Flags, Job, Lookups}
use nk.Cmd.Sync.Run.{sync_job, target_sync, target_delete}
use nk.Cmd.Sync.Order.{HostFirst, target_sync-HostFirst, target_delete-HostFirst}
use nk.Cmd.Sync.Promise.{IsRead, target_sync-IsRead, sync_job-refused}
use nk.Cmd.Sync.Success.{IsSynced, sync_job-IsSynced}
use nk.Tests.Data.{web, ca, session, plain_case, no_port, join_port}

abbrev now : Time
now = 0

abbrev printed : Text
printed = codes "#nk passwd\nroot:x:0:0:root:/root:/bin/sh\n#nk hostkey\nssh-ed25519 BBBB\n"

-- A server that answers every command, and a backend that does as asked.
abbrev world : World
world = record {
  on_host = λ dest command input. (printed, true);
  created = λ t. some t;
  principals_of = λ t. some [];
  reported = λ t accounts key. true;
  deleted = λ t. true;
  refreshed = true;
}

abbrev lookups : Lookups
lookups = record { listed = none; resolved_grants = none; resolved = λ dest. none }

abbrev flags : Flags
flags = record {
  port = [];
  name = [];
  ca_ref = [];
  tags = [];
  dry_run = false;
  accept_host_key = false;
  keep_host = false;
}

abbrev dry : Flags
dry = record flags { dry_run = true }

abbrev accepting : Flags
accepting = record flags { accept_host_key = true }

abbrev job : Job
job = record {
  dest = record { host = codes "10.0.0.5"; port = [] };
  target = web;
  ca = ca;
  seeds = [];
}

target_sync-HostFirst_example :
    HostFirst world false
      (target_sync no_port join_port plain_case world now session lookups accepting
        (codes "root@web")).effects
target_sync-HostFirst_example =
    target_sync-HostFirst no_port join_port plain_case world now session lookups accepting
      (codes "root@web")

target_delete-HostFirst_example :
    HostFirst world flags.keep_host
      (target_delete no_port join_port plain_case world session lookups flags (codes "web")).effects
target_delete-HostFirst_example =
    target_delete-HostFirst no_port join_port plain_case world session lookups flags (codes "web")

target_sync-IsRead_example :
    All IsRead
      (target_sync no_port join_port plain_case world now session lookups dry (codes "web")).effects
target_sync-IsRead_example =
    target_sync-IsRead no_port join_port plain_case world now session lookups dry (codes "web") refl

sync_job-refused_example :
    ((sync_job world now flags job).effects ≡ run_on_host job.dest probe_command [] ∷ [])
    × ((e : Failure) × ((sync_job world now flags job).failure ≡ some e))
unfolding parse_probe
sync_job-refused_example =
    sync_job-refused world now flags job printed (parse_probe printed).0 refl refl (inl refl)

sync_job-IsSynced_example : IsSynced world now job (sync_job world now accepting job)
unfolding sync_job
sync_job-IsSynced_example = sync_job-IsSynced world now accepting job refl refl
