-- ===== src/Tests/Target.antt =====
-- internal/cmd/target.go and internal/ssh/proxy.go at concrete inputs.
use nk.Base.{◌≡◌, refl, false, List, [], ◌∷◌, find?, keep}
use nk.Base.Text.{Text, codes, text_eq}
use nk.State.{Ca}
use nk.Cmd.Target.{find_target, resolve_ca}
use nk.Cmd.Target.Found.{
  IsFound, find_target_lem, exactly, loosely, by_id_or_name, resolve_ca-search_ca,
}
use nk.Ssh.Proxy.{Event, fired, failed, connected, run, start}
use nk.Ssh.Proxy.Race.{all_dials, IsSettled, run-start-IsSettled}
use nk.Ssh.Proxy.Ends.{IsBounded, run-start-IsBounded}
use nk.Tests.Data.{web, db, ca, plain_case, no_port}

find_target_lem_example :
    IsFound no_port
      (web ∷ db ∷ [])
      (codes "10.0.0.5")
      (find_target no_port (web ∷ db ∷ []) (codes "10.0.0.5"))
find_target_lem_example = find_target_lem no_port (web ∷ db ∷ []) (codes "10.0.0.5")

abbrev cas : List Ca
cas = ca ∷ record ca { id = codes "2"; name = codes "other" } ∷ []

resolve_ca-search_ca_example :
    resolve_ca plain_case cas (codes "other")
    ≡ by_id_or_name plain_case
        (codes "other")
        (find? (λ (c : Ca). text_eq c.id (codes "other")) cas)
        (keep (exactly plain_case (codes "other")) cas)
        (keep (loosely plain_case (codes "other")) cas)
resolve_ca-search_ca_example = resolve_ca-search_ca plain_case (codes "other") cas refl

-- The endpoint of a daemon's target is down, and the relay answers.
abbrev events : List (Event Text Text)
events = failed (codes "timeout") ∷ fired ∷ connected (codes "relayed") ∷ []

run-start-IsSettled_example :
    IsSettled Text Text
      (all_dials (λ ep. ep) db false)
      (run Text Text events (start Text Text (λ ep. ep) db false))
run-start-IsSettled_example = run-start-IsSettled Text Text (λ ep. ep) db false events

run-start-IsBounded_example :
    IsBounded Text Text db events (run Text Text events (start Text Text (λ ep. ep) db false))
run-start-IsBounded_example = run-start-IsBounded Text Text (λ ep. ep) db false events
