-- ===== src/Cmd/Target/Found.antt =====
-- internal/cmd/target.go: what findTarget, resolveCA and checkHostKey promise.
use nk.Base.{
  ◌≤◌, ◌≡◌, refl, inl, inr, ◌⊎◌, Bool, true, false, ◌&&◌, not, List, [], ◌∷◌, ◌++◌, Option, none,
  some, keep, find?, length, arith, All, Member, Member-of_keep, Member-keep, if◌then◌else◌,
  Bool-cases, append_assoc, append-nil,
}
use nk.Base.Text.{Text, text_eq, is_empty, CaseTables, equal_fold}
use nk.State.{Target, Ca, manual}
use nk.Cmd.Target.{
  Result, several_targets, runs_daemon, several_cas, ca_not_found, ok, err, answers, find_target,
  search_ca, resolve_ca, only_ca,
}

module _ {A : Type 0} (p : A → Bool) where
  keep-none : (xs : List A) → keep p xs ≡ [] → All (λ x. p x ≡ false) xs
  keep-none [] e = tt
  keep-none (x ∷ xs) e = elim (Bool-cases (p x)) [
    | inl t ↦ cc (rw t at e)
    | inr f ↦ (f, keep-none xs (rw f at e))
  ]

  keep_one :
      (xs : List A) (a : A)
      → keep p xs ≡ a ∷ []
      → (Member a xs × (p a ≡ true)) × All (λ x. (p x ≡ false) ⊎ (x ≡ a)) xs
  keep_one xs a e = (
    Member-of_keep p a xs (rw e (inl refl)),
    others xs λ x m t. only x (rw e at (Member-keep p x xs m t)),
  )
    where
      only : (x : A) → Member x (a ∷ []) → x ≡ a
      only x (inl q) = q
      only x (inr m) = elim m [ ]

      others :
          (ys : List A)
          → ((x : A) → Member x ys → p x ≡ true → x ≡ a)
          → All (λ x. (p x ≡ false) ⊎ (x ≡ a)) ys
      others [] h = tt
      others (y ∷ ys) h = (
        elim (Bool-cases (p y)) [ inl t ↦ inr (h y (inl refl) t) | inr f ↦ inl f ],
        others ys (λ x m. h x (inr m)),
      )

module _ (split_host_port : Text → Option (Text × Text)) where
  abbrev pub IsOnly : List Target → Text → Target → Type 0
  IsOnly targets host t =
      (Member t targets × (answers split_host_port host t ≡ true))
      × All (λ u. (answers split_host_port host u ≡ false) ⊎ (u ≡ t)) targets

  -- What a result of findTarget says of the targets.
  abbrev pub IsFound : List Target → Text → Result (Option Target) → Type 0
  IsFound targets host (ok none) = All (λ u. answers split_host_port host u ≡ false) targets
  IsFound targets host (ok (some t)) = IsOnly targets host t × (manual t ≡ true)
  IsFound targets host (err several_targets) =
      2 ≤ length (keep (answers split_host_port host) targets)
  IsFound targets host (err runs_daemon) = (t : Target) × IsOnly targets host t × (manual t ≡ false)
  IsFound targets host (err _) = ⊥

  -- findTarget's answer is right on every branch. It returns a target only if that target goes by
  -- the host's name or has an endpoint there, no other target does, and it runs without the daemon;
  -- it says that the server is new only if no target answers to the host; it refuses a server of the
  -- daemon and a host of several targets, and has no other error.
  pub find_target_lem :
      (targets : List Target) (host : Text)
      → IsFound targets host (find_target split_host_port targets host)
  unfolding find_target
  find_target_lem targets host = of_kept (keep (answers split_host_port host) targets) refl
    where
      of_kept :
          (kept : List Target)
          → keep (answers split_host_port host) targets ≡ kept
          → IsFound targets host (elim kept [
            | [] ↦ ok none
            | t ∷ [] ↦ if not (manual t) then err runs_daemon else ok (some t)
            | t ∷ t' ∷ more ↦ err several_targets
          ])
      of_kept [] e = keep-none (answers split_host_port host) targets e
      of_kept (t ∷ []) e = elim (Bool-cases (manual t)) [
        | inl m ↦ rw m (keep_one (answers split_host_port host) targets t e, m)
        | inr m ↦ rw m (t, keep_one (answers split_host_port host) targets t e, m)
      ]
      of_kept (t ∷ t' ∷ more) e = rw e (omega arith)

module _ (u : CaseTables) (ref : Text) where
  abbrev pub exactly : Ca → Bool
  exactly ca = text_eq ca.name ref

  abbrev pub loosely : Ca → Bool
  loosely ca = not (text_eq ca.name ref) && equal_fold u ca.name ref

  -- One of the exact names, or else of the names that differ in case.
  abbrev pub by_name : List Ca → List Ca → Result Ca
  by_name [] folded = only_ca ca_not_found several_cas folded
  by_name (e ∷ exact) folded = only_ca ca_not_found several_cas (e ∷ exact)

  abbrev pub by_id_or_name : Option Ca → List Ca → List Ca → Result Ca
  by_id_or_name (some ca) exact folded = ok ca
  by_id_or_name none exact folded = by_name exact folded

  search_ca_lem :
      (cas exact folded : List Ca)
      → search_ca u ref cas exact folded
        ≡ by_id_or_name
            (find? (λ (ca : Ca). text_eq ca.id ref) cas)
            (exact ++ keep exactly cas)
            (folded ++ keep loosely cas)
  unfolding search_ca
  search_ca_lem [] [] folded = rw (append-nil folded) refl
  search_ca_lem [] (e ∷ exact) folded = rw (append-nil exact) refl
  search_ca_lem (ca ∷ cas) exact folded = ground (
    arith,
    search_ca_lem cas (exact ++ ca ∷ []) folded,
    search_ca_lem cas exact (folded ++ ca ∷ []),
    search_ca_lem cas exact folded,
    append_assoc exact (ca ∷ []) (keep exactly cas),
    append_assoc folded (ca ∷ []) (keep loosely cas),
  )

  -- For a reference that is not empty, resolveCA, which goes through the CAs once, is the choice
  -- in three rounds: the first CA of that id, else the only CA of exactly that name, else the only
  -- CA whose name differs in case alone. A name of several CAs is an error, and so is one of none.
  pub resolve_ca-search_ca :
      (cas : List Ca)
      → is_empty ref ≡ false
      → resolve_ca u cas ref
        ≡ by_id_or_name
            (find? (λ (ca : Ca). text_eq ca.id ref) cas)
            (keep exactly cas)
            (keep loosely cas)
  unfolding resolve_ca
  resolve_ca-search_ca cas e = rw e (search_ca_lem cas [] [])
