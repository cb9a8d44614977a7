-- ===== src/Cmd/Listing.antt =====
-- internal/cmd/list.go and internal/cmd/login.go: what nk ls shows of a target, and the steps of
-- nk logout. The reading of time stamps is an argument, and so are the steps' outcomes.
use nk.Base.{
  ◌≡◌, refl, ◌⊎◌, inl, inr, Bool, true, false, ◌&&◌, not, List, [], ◌∷◌, ◌++◌, Option, none, some,
  ◌==◌, ◌<◌, arith, if◌then◌else◌, Bool-cases, both_true, ltb,
}
use nk.Base.Text.{Text, codes, first_of_texts}
use nk.Base.Clock.{Time, zero_time, sub}
use nk.State.{State, Target, Ca, manual, last_manual_sync, needs_sync, ca_by_id, text_at}
use nk.Ssh.Config.{Aliases, alias_at}
use nk.Ui.{humanize_duration}
use nk.Client.Sync.{revokes}

-- A line of nk ls: the name, the accounts and the note.
pub record Line : Type 0 where
  pub name : Text
  pub users : Text
  pub note : Text

-- A target of nk ls --json.
pub record TargetJson : Type 0 where
  pub name : Text
  pub users : List Text
  pub manual : Bool
  pub last_synced : Text
  pub needs_sync : Bool

abbrev or_text : Option Text → Text → Text
or_text none t = t
or_text (some a) t = first_of_texts a t

-- strings.Join(users, ", ")
unfoldable pub join_accounts : List Text → Text
join_accounts [] = []
join_accounts (a ∷ []) = a
join_accounts (a ∷ b ∷ rest) = a ++ (codes ", " ++ join_accounts (b ∷ rest))

unfoldable pub shown_accounts : List Text → Text
unfolding join_accounts
shown_accounts [] = codes "no accounts"
shown_accounts (a ∷ rest) = join_accounts (a ∷ rest)

module _ (parse_rfc3339 : Text → Option Time) where
  -- manualNote
  unfoldable pub manual_note : Time → Target → Option Ca → Text
  unfolding manual last_manual_sync needs_sync humanize_duration sub
  manual_note now t ca =
      let last = last_manual_sync parse_rfc3339 t in
      if not (manual t)
      then []
      else if last == zero_time
      then codes "(manual, never synced)"
      else if needs_sync parse_rfc3339 t ca
      then codes "(manual, needs nk sync, its certificate authority was rotated)"
      else codes "(manual, synced " ++ (humanize_duration (sub now last) ++ codes " ago)")

  -- One line of nk ls; the colours are left out.
  unfoldable pub list_line : Time → State → Aliases → Target → Line
  unfolding alias_at shown_accounts manual_note ca_by_id
  list_line now s aliases t = record {
    name = or_text (alias_at aliases t.id) t.name;
    users = shown_accounts t.usernames;
    note = manual_note now t (ca_by_id s t.ca_id);
  }

  -- printTargetsJSON, for one target
  unfoldable pub target_json : State → Target → TargetJson
  unfolding manual text_at needs_sync ca_by_id
  target_json s t = record {
    name = t.name;
    users = t.usernames;
    manual = manual t;
    last_synced = text_at t.metadata (codes "last_manual_sync");
    needs_sync = needs_sync parse_rfc3339 t (ca_by_id s t.ca_id);
  }

  abbrev pub rotated_note : Text
  rotated_note = codes "(manual, needs nk sync, its certificate authority was rotated)"

  abbrev pub never_note : Text
  never_note = codes "(manual, never synced)"

  needs_sync_true :
      (t : Target) (c : Option Ca)
      → needs_sync parse_rfc3339 t c ≡ true
      → (manual t ≡ true)
        × ((ca : Ca) × (c ≡ some ca) × (last_manual_sync parse_rfc3339 t < ca.rotated_at))
  unfolding needs_sync
  needs_sync_true t none h = cc
  needs_sync_true t (some ca) h =
      let (m, l) = both_true (manual t) (ltb (last_manual_sync parse_rfc3339 t) ca.rotated_at) h in
      (m, (ca, refl, ground (arith, l)))

  manual_note_rotated :
      (now : Time) (t : Target) (c : Option Ca)
      → needs_sync parse_rfc3339 t c ≡ true
      → manual t ≡ true
      → (manual_note now t c ≡ rotated_note) ⊎ (manual_note now t c ≡ never_note)
  unfolding manual_note
  manual_note_rotated now t c h m =
      elim (Bool-cases (last_manual_sync parse_rfc3339 t == zero_time)) [
        | inl e ↦ rw (m, e) (inr refl)
        | inr e ↦ rw (m, e, h) (inl refl)
      ]

  -- A target of which the JSON says that it needs a sync is a manual one, whose time stamp, read as
  -- the zero time where it does not parse, is before the last rotation of its CA in the snapshot;
  -- and the line of nk ls then says so, or that it was never synced.
  pub target_json-needs_sync :
      (now : Time) (s : State) (aliases : Aliases) (t : Target)
      → (target_json s t).needs_sync ≡ true
      → ((target_json s t).manual ≡ true)
        × ((ca : Ca) × (ca_by_id s t.ca_id ≡ some ca)
            × (last_manual_sync parse_rfc3339 t < ca.rotated_at))
        × (((list_line now s aliases t).note ≡ rotated_note)
            ⊎ ((list_line now s aliases t).note ≡ never_note))
  unfolding target_json list_line
  target_json-needs_sync now s aliases t h =
      let (m, l) = needs_sync_true t (ca_by_id s t.ca_id) h in
      (m, l, manual_note_rotated now t (ca_by_id s t.ca_id) h m)

-- The steps of nk logout.
pub data Step : Type 0 where
  revoke stop_agent remove_include remove_config_dir offer_removal : Step

-- What nk logout gets from outside: the loaded state, client.New's success, and whether the two
-- removals succeed.
pub record Leaving : Type 0 where
  pub loaded : Option State
  pub client_ok : Bool
  pub include_ok : Bool
  pub dir_ok : Bool

unfoldable pub revoke_steps : Leaving → Option State → List Step
unfolding revokes
revoke_steps l none = []
revoke_steps l (some s) = if l.client_ok && revokes s then revoke ∷ [] else []

abbrev pub offer_steps : Option State → List Step
offer_steps none = []
offer_steps (some s) = offer_removal ∷ []

-- The action of logoutCMD: its steps, and whether it ends without an error.
unfoldable pub logout : Leaving → List Step × Bool
unfolding revoke_steps
logout l =
    let first = revoke_steps l l.loaded ++ (stop_agent ∷ remove_include ∷ []) in
    if not l.include_ok
    then (first, false)
    else if not l.dir_ok
    then (first ++ (remove_config_dir ∷ []), false)
    else (first ++ (remove_config_dir ∷ offer_steps l.loaded), true)
