-- ===== src/Client/Grant.antt =====
-- internal/client/grant.go: the --grant flags of nk sync. The lists of the backend are arguments.
pub mod Seed
use nk.Base.{
  ℕ, ◌≡◌, Bool, true, false, ◌&&◌, ◌||◌, not, List, [], ◌∷◌, ◌++◌, Option, none, some, map, keep,
  if◌then◌else◌,
}
use nk.Base.Text.{Text, codes, text_eq, is_empty, cut, split, trim_space, CaseTables, equal_fold}
use nk.Base.Order.{sort}
use nk.State.{State, User, ServiceAccount}
use nk.State.Access.{canonical_uuid}

-- Grant
pub record Grant : Type 0 where
  pub account : Text
  pub subjects : List Text
  pub users : List Text
  pub teams : List Text
  pub service_accounts : List Text

pub data GrantError : Type 0 where
  not_a_grant who_is_me lookup_failed no_match several_matches no_kind : GrantError

pub data Answer (A : Type 0) : Type 0 where
  ok : A → Answer A
  err : GrantError → Answer A

-- The account and the subjects of one flag.
unfoldable pub parse_spec : Text → Text × List Text
unfolding cut trim_space split
parse_spec spec =
    let (account, list, _) = cut b'=' spec in
    (trim_space account, keep (λ s. not (is_empty s)) (map trim_space (split b',' list)))

abbrev pub is_nil : List Text → Bool
is_nil [] = true
is_nil (x ∷ xs) = false

-- `seed[account] = append(seed[account], subjects...)`
unfoldable pub add_subjects : List (Text × List Text) → Text → List Text → List (Text × List Text)
unfolding text_eq
add_subjects [] account subjects = (account, subjects) ∷ []
add_subjects ((a, ss) ∷ seed) account subjects =
    let rest = add_subjects seed account subjects in
    if text_eq a account then (a, ss ++ subjects) ∷ seed else (a, ss) ∷ rest

-- The loop of parseGrants over the flags.
unfoldable pub parse_onto : List Text → List (Text × List Text) → Answer (List (Text × List Text))
unfolding parse_spec add_subjects
parse_onto [] seed = ok seed
parse_onto (spec ∷ specs) seed =
    let (account, subjects) = parse_spec spec in
    let rest = parse_onto specs (add_subjects seed account subjects) in
    if is_empty account || is_nil subjects then err not_a_grant else rest

-- parseGrants
unfoldable pub parse_grants : List Text → Answer (List (Text × List Text))
unfolding parse_onto
parse_grants specs = parse_onto specs []

-- oneID
unfoldable pub one_id : List Text → Answer Text
one_id [] = err no_match
one_id (i ∷ []) = ok i
one_id (i ∷ j ∷ more) = err several_matches

-- An entry that the backend lists: its id, and its email or its name.
pub record Entry : Type 0 where
  pub id : Text
  pub label : Text

-- The lookup that userID, teamID and serviceAccountID share; `none` stands for a failed request.
unfoldable pub look_up : (Text → Text → Bool) → (Text → Option (List Entry)) → Text → Answer Text
unfolding canonical_uuid one_id
look_up same listed name = if canonical_uuid name then ok name else elim (listed name) [
  | none ↦ err lookup_failed
  | some es ↦ one_id (map (λ (e : Entry). e.id) (keep (λ (e : Entry). same e.label name) es))
]

-- ListUsers, ListTeams and ListServiceAccounts, each with the name as its query.
pub record Directory : Type 0 where
  pub listed_users : Text → Option (List Entry)
  pub listed_teams : Text → Option (List Entry)
  pub listed_accounts : Text → Option (List Entry)

-- Which list of a grant a subject's id goes to.
pub data Kind : Type 0 where
  user team service_account : Kind

abbrev pub found_as : Kind → Answer Text → Answer (Kind × Text)
found_as k (ok i) = ok (k, i)
found_as k (err e) = err e

unfoldable pub add_id : Kind → Text → Grant → Grant
add_id user i g = record g { users = g.users ++ i ∷ [] }
add_id team i g = record g { teams = g.teams ++ i ∷ [] }
add_id service_account i g = record g { service_accounts = g.service_accounts ++ i ∷ [] }

-- The subjects of an account; every account that is resolved has some.
unfoldable pub subjects_at : List (Text × List Text) → Text → List Text
unfolding text_eq
subjects_at [] account = []
subjects_at ((a, ss) ∷ seed) account = if text_eq a account then ss else subjects_at seed account

module _ (u : CaseTables) (d : Directory) (s : State) where
  -- `me`: the service account, or else the user
  unfoldable pub who_am_i : Option ServiceAccount → Option User → Answer (Kind × Text)
  who_am_i (some sa) who = ok (service_account, sa.id)
  who_am_i none (some who) = ok (user, who.id)
  who_am_i none none = err who_is_me

  -- The switch of resolveGrant, at one subject.
  unfoldable pub resolve_subject : Text → Answer (Kind × Text)
  unfolding cut text_eq look_up who_am_i
  resolve_subject ref =
      let (kind, name, prefixed) = cut b':' ref in
      if text_eq ref (codes "me")
      then who_am_i s.service_account s.user
      else if not prefixed
      then found_as user (look_up (equal_fold u) d.listed_users ref)
      else if text_eq kind (codes "team")
      then found_as team (look_up text_eq d.listed_teams name)
      else if text_eq kind (codes "sa")
      then found_as service_account (look_up text_eq d.listed_accounts name)
      else err no_kind

  -- The loop of resolveGrant.
  unfoldable pub resolve_onto : List Text → Grant → Answer Grant
  unfolding add_id
  resolve_onto [] g = ok g
  resolve_onto (ref ∷ refs) g = elim (resolve_subject ref) [
    | err e ↦ err e
    | ok found ↦ resolve_onto refs (add_id found.0 found.1 g)
  ]

  -- resolveGrant
  unfoldable pub resolve_grant : Text → List Text → Answer Grant
  unfolding resolve_onto
  resolve_grant account subjects = resolve_onto subjects (record {
    account = account;
    subjects = subjects;
    users = [];
    teams = [];
    service_accounts = [];
  })

  -- The loop of ResolveGrants over the sorted accounts.
  unfoldable pub resolve_accounts : List Text → List (Text × List Text) → Answer (List Grant)
  unfolding resolve_grant subjects_at
  resolve_accounts [] seed = ok []
  resolve_accounts (a ∷ accounts) seed = elim (resolve_grant a (subjects_at seed a)) [
    | err e ↦ err e
    | ok g ↦ elim (resolve_accounts accounts seed) [ err e ↦ err e | ok gs ↦ ok (g ∷ gs) ]
  ]

  -- ResolveGrants
  unfoldable pub resolve_grants : List Text → Answer (List Grant)
  unfolding parse_grants resolve_accounts sort
  resolve_grants specs = elim (parse_grants specs) [
    | err e ↦ err e
    | ok seed ↦ resolve_accounts (sort (map (λ (e : Text × List Text). e.0) seed)) seed
  ]
