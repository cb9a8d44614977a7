-- ===== src/Client/Requests.antt =====
-- internal/client/client.go: the requests about targets and CAs. What the backend answers is an
-- argument, `none` for an error.
use nk.Base.{List, [], ◌∷◌, map, Option, none, some, keep, if◌then◌else◌}
use nk.Base.Text.{Text, text_eq}
use nk.State.{Target, Ca}
use nk.State.Access.{CaMessage, ssh_cas, map_target}
use nk.Client.Grant.{Grant}

-- A write to a Go map of lists of texts.
unfoldable pub put : Text → List Text → List (Text × List Text) → List (Text × List Text)
unfolding text_eq
put k v [] = (k, v) ∷ []
put k v ((j, w) ∷ m) = let rest = put k v m in if text_eq j k then (j, v) ∷ m else (j, w) ∷ rest

-- The loop of TargetPrincipals over the answer's pairs of an account and its principals.
unfoldable pub put_all : List (Text × List Text) → List (Text × List Text) → List (Text × List Text)
unfolding put
put_all [] m = m
put_all ((k, v) ∷ ps) m = put_all ps (put k v m)

-- TargetPrincipals
unfoldable pub target_principals :
    Option (List (Text × List Text)) → Option (List (Text × List Text))
unfolding put_all
target_principals none = none
target_principals (some ps) = some (put_all ps [])

-- ListSSHCAs: the active ones of the answer.
unfoldable pub list_ssh_cas : Option (List CaMessage) → Option (List Ca)
unfolding ssh_cas
list_ssh_cas none = none
list_ssh_cas (some cas) = some (ssh_cas (keep (λ m. m.is_active) cas))

pub record JoinGrant : Type 0 where
  pub username : Text
  pub user_ids : List Text
  pub team_ids : List Text
  pub service_account_ids : List Text

pub record CreateRequest : Type 0 where
  pub ca_id : Text
  pub name : Text
  pub host_public_key : Text
  pub endpoints : List Text
  pub tags : List Text
  pub grants : List JoinGrant

abbrev pub join_grant : Grant → JoinGrant
join_grant g = record {
  username = g.account;
  user_ids = g.users;
  team_ids = g.teams;
  service_account_ids = g.service_accounts;
}

-- The request of CreateTarget.
unfoldable pub create_request : Target → List Text → List Grant → CreateRequest
create_request t tags grants = record {
  ca_id = t.ca_id;
  name = t.name;
  host_public_key = t.host_public_key;
  endpoints = t.endpoints;
  tags = tags;
  grants = map join_grant grants;
}

-- CreateTarget's result; the answer names no CA that counts.
unfoldable pub created_target : Target → Option Target → Option Target
unfolding map_target
created_target t none = none
created_target t (some made) = some (record (map_target made) { ca_id = t.ca_id })
