-- ===== src/Ssh/Config/Aliases/Apart.antt =====
-- internal/ssh/config.go: when different targets have different aliases, and that none is a name of
-- the user's own config.
use nk.Base.{
  ◌<◌, ◌≡◌, ◌≢◌, refl, sym, ap, ◌∙◌, ◌⊎◌, inl, inr, true, false, List, [], ◌∷◌, ◌++◌, some, arith,
  ltb, All, Member, two_kept, Bool-cases, All-Member, if◌then◌else◌,
}
use nk.Base.Text.{Text, codes, text_eq, text_eq_iff, text_eq_refl, CaseTables, to_lower}
use nk.Base.Lines.{Lacks}
use nk.State.{Target, State}
use nk.State.Safe.{IsSafe, IsId}
use nk.Ssh.Own.{OwnBlock, claims}
use nk.Ssh.Config.{
  usable, same_name, name_count, alias_of, add_aliases, host_aliases, alias_at, Aliases,
}
use nk.Ssh.Config.Aliases.{
  IsNameChar, usable-name, lower_id, lower_name-Lacks, lower_prefixed, alias_of-claims,
}

module _ (u : CaseTables) where
  name_count_two :
      (ts : List Target) (t t' : Target)
      → Member t ts
      → Member t' ts
      → usable t ≡ true
      → usable t' ≡ true
      → to_lower u t.name ≡ to_lower u t'.name
      → t.id ≢ t'.id
      → 1 < name_count u ts t.name
  unfolding name_count
  name_count_two ts t t' m m' h h' same ne =
      two_kept (same_name u (to_lower u t.name)) t t' ts m m'
        (rw (h, text_eq_refl (to_lower u t.name)))
        (rw (h', same, text_eq_refl (to_lower u t'.name))) (λ e. ne (ap (λ (x : Target). x.id) e))

  -- The three forms of an alias.
  data Form (ts : List Target) (t : Target) (alias : Text) : Type 0 where
    by_id : alias ≡ codes "nokku/" ++ t.id → Form ts t alias
    prefixed :
        alias ≡ codes "nokku/" ++ t.name → ltb 1 (name_count u ts t.name) ≡ false → Form ts t alias
    bare : alias ≡ t.name → ltb 1 (name_count u ts t.name) ≡ false → Form ts t alias

  alias_of-Form :
      (ts : List Target) (own : List OwnBlock) (t : Target) → Form ts t (alias_of u ts own t)
  unfolding alias_of
  alias_of-Form ts own t = elim (Bool-cases (ltb 1 (name_count u ts t.name))) [
    | inl many ↦ by_id (rw many)
    | inr one ↦ elim (Bool-cases (claims u own t.name)) [
      | inl c ↦ prefixed (rw (one, c)) one
      | inr c ↦ bare (rw (one, c)) one
    ]
  ]

  lower_not_prefixed :
      (x name : Text) → All IsNameChar name → to_lower u (codes "nokku/" ++ x) ≢ to_lower u name
  lower_not_prefixed x name h e =
      slash (rw (← e, lower_prefixed u x) at (lower_name-Lacks u name h))
    where
      slash : ¬ (Lacks b'/' (codes "nokku/" ++ to_lower u x))
      slash (_, (_, (_, (_, (_, (f, _)))))) = cc

  prefixed_inj :
      (x y : Text)
      → to_lower u (codes "nokku/" ++ x) ≡ to_lower u (codes "nokku/" ++ y)
      → to_lower u x ≡ to_lower u y
  prefixed_inj x y e = cc (lower_prefixed u x, lower_prefixed u y, e)

  -- No target is named, letter case aside, like the id of another.
  abbrev pub NamesApart : Target → Target → Type 0
  NamesApart t t' = (to_lower u t.name ≢ t'.id) × (to_lower u t'.name ≢ t.id)

  forms_apart :
      (ts : List Target) (t t' : Target) (a a' : Text)
      → IsId t.id
      → IsId t'.id
      → usable t ≡ true
      → usable t' ≡ true
      → Member t ts
      → Member t' ts
      → NamesApart t t'
      → t.id ≢ t'.id
      → Form ts t a
      → Form ts t' a'
      → to_lower u a ≢ to_lower u a'
  forms_apart ts t t' a a' i i' h h' m m' apart ne (by_id e) (by_id e') same = ne (
      cc (lower_id u t.id i.0, lower_id u t'.id i'.0, prefixed_inj t.id t'.id (rw (e, e') at same)))
  forms_apart ts t t' a a' i i' h h' m m' apart ne (by_id e) (prefixed e' _) same =
      apart.1 (cc (lower_id u t.id i.0, prefixed_inj t.id t'.name (rw (e, e') at same)))
  forms_apart ts t t' a a' i i' h h' m m' apart ne (by_id e) (bare e' _) same =
      lower_not_prefixed t.id t'.name (usable-name t' h') (rw (e, e') at same)
  forms_apart ts t t' a a' i i' h h' m m' apart ne (prefixed e _) (by_id e') same =
      apart.0 (cc (lower_id u t'.id i'.0, prefixed_inj t.name t'.id (rw (e, e') at same)))
  forms_apart ts t t' a a' i i' h h' m m' apart ne (bare e _) (by_id e') same =
      lower_not_prefixed t'.id t.name (usable-name t h) (sym (rw (e, e') at same))
  forms_apart ts t t' a a' i i' h h' m m' apart ne (prefixed e one) (bare e' _) same =
      lower_not_prefixed t.name t'.name (usable-name t' h') (rw (e, e') at same)
  forms_apart ts t t' a a' i i' h h' m m' apart ne (bare e one) (prefixed e' _) same =
      lower_not_prefixed t'.name t.name (usable-name t h) (sym (rw (e, e') at same))
  forms_apart ts t t' a a' i i' h h' m m' apart ne (prefixed e one) (prefixed e' _) same = ground (
    arith,
    name_count_two ts t t' m m' h h' (prefixed_inj t.name t'.name (rw (e, e') at same)) ne,
  )
  forms_apart ts t t' a a' i i' h h' m m' apart ne (bare e one) (bare e' _) same =
      ground (arith, name_count_two ts t t' m m' h h' (rw (e, e') at same) ne)

  -- Two targets of one snapshot never share an alias, not even up to letter case, provided that
  -- neither is named like the id of the other.
  pub alias_of-apart :
      (ts : List Target) (own : List OwnBlock) (t t' : Target)
      → IsId t.id
      → IsId t'.id
      → usable t ≡ true
      → usable t' ≡ true
      → Member t ts
      → Member t' ts
      → NamesApart t t'
      → t.id ≢ t'.id
      → to_lower u (alias_of u ts own t) ≢ to_lower u (alias_of u ts own t')
  alias_of-apart ts own t t' i i' h h' m m' apart ne =
      forms_apart ts t t' (alias_of u ts own t) (alias_of u ts own t') i i' h h' m m' apart ne
        (alias_of-Form ts own t) (alias_of-Form ts own t')

  -- The target that an alias was made for.
  abbrev pub MadeFor : List Target → List OwnBlock → List Target → Text → Text → Type 0
  MadeFor ts own among i a =
      (t : Target) × Member t among × (usable t ≡ true) × (t.id ≡ i) × (a ≡ alias_of u ts own t)

  add_aliases-at :
      (ts : List Target) (own : List OwnBlock) (rest : List Target) (m : Aliases) (i a : Text)
      → alias_at (add_aliases u ts own rest m) i ≡ some a
      → MadeFor ts own rest i a ⊎ (alias_at m i ≡ some a)
  unfolding add_aliases alias_at
  add_aliases-at ts own [] m i a h = inr h
  add_aliases-at ts own (t ∷ rest) m i a h =
      elim (add_aliases-at ts own rest (if usable t then (t.id, alias_of u ts own t) ∷ m else m) i a
        h) [ inl (x, n, us, e, al) ↦ inl (x, inr n, us, e, al) | inr found ↦ here found ]
    where
      here :
          alias_at (if usable t then (t.id, alias_of u ts own t) ∷ m else m) i ≡ some a
          → MadeFor ts own (t ∷ rest) i a ⊎ (alias_at m i ≡ some a)
      here found = elim (Bool-cases (usable t)) [
        | inr no' ↦ inr (rw no' at found)
        | inl us ↦ elim (Bool-cases (text_eq t.id i)) [
          | inr other ↦ inr (rw (us, other, alias_at) at found)
          | inl same ↦
              let got : some (alias_of u ts own t) ≡ some a = rw (us, same, alias_at) at found in
              inl (t, inl refl, us, (text_eq_iff t.id i).0 same, ground arith)
        ]
      ]

  pub host_aliases-MadeFor :
      (s : State) (own : List OwnBlock) (i a : Text)
      → alias_at (host_aliases u s own) i ≡ some a
      → MadeFor s.targets own s.targets i a
  unfolding host_aliases alias_at
  host_aliases-MadeFor s own i a h = elim (add_aliases-at s.targets own s.targets [] i a h) [
    | inl made ↦ made
    | inr e ↦ cc
  ]

  -- Two targets of these ids, where one of them is named, letter case aside, like the id of the other.
  abbrev pub Clash : List Target → Text → Text → Type 0
  Clash ts i j =
      (t : Target) × (t' : Target) × Member t ts
      × Member t' ts
      × (t.id ≡ i)
      × (t'.id ≡ j)
      × ((to_lower u t.name ≡ t'.id) ⊎ (to_lower u t'.name ≡ t.id))

  name_cases :
      (t t' : Target)
      → NamesApart t t' ⊎ ((to_lower u t.name ≡ t'.id) ⊎ (to_lower u t'.name ≡ t.id))
  name_cases t t' = elim (Bool-cases (text_eq (to_lower u t.name) t'.id)) [
    | inl e ↦ inr (inl ((text_eq_iff (to_lower u t.name) t'.id).0 e))
    | inr e ↦ elim (Bool-cases (text_eq (to_lower u t'.name) t.id)) [
      | inl f ↦ inr (inr ((text_eq_iff (to_lower u t'.name) t.id).0 f))
      | inr f ↦ inl (differs (to_lower u t.name) t'.id e, differs (to_lower u t'.name) t.id f)
    ]
  ]
    where
      differs : (x y : Text) → text_eq x y ≡ false → x ≢ y
      differs x y ne same = cc (ne, (text_eq_iff x y).1 same)

  -- In a snapshot that is safe, two targets with different ids have different aliases, even where
  -- ssh folds letter case, unless one of the two is named like the id of the other, letter case
  -- aside.
  pub host_aliases-apart :
      (s : State) (own : List OwnBlock) (i j a b : Text)
      → All IsSafe s.targets
      → i ≢ j
      → alias_at (host_aliases u s own) i ≡ some a
      → alias_at (host_aliases u s own) j ≡ some b
      → (to_lower u a ≢ to_lower u b) ⊎ Clash s.targets i j
  host_aliases-apart s own i j a b safe ne hi hj =
      let (t, m, us, ei, ea) = host_aliases-MadeFor s own i a hi in
      let (t', m', us', ej, eb) = host_aliases-MadeFor s own j b hj in
      elim (name_cases t t') [
        | inr clash ↦ inr (t, t', m, m', ei, ej, clash)
        | inl apart ↦ inl (
            rw (ea, eb)
              (alias_of-apart s.targets own t t' (All-Member IsSafe s.targets t safe m).id_safe
                (All-Member IsSafe s.targets t' safe m').id_safe us us' m m' apart
                (λ e. ne (sym ei ∙ e ∙ ej))))
      ]

  no_slash : (x : Text) → ¬ (Lacks b'/' (codes "nokku/" ++ x))
  no_slash x (_, (_, (_, (_, (_, (f, _)))))) = cc

  -- An alias without a slash, which is a target's bare name, is a name that the user's own config
  -- does not claim, so nk takes over no host of theirs.
  pub host_aliases-claims :
      (s : State) (own : List OwnBlock) (i a : Text)
      → All IsSafe s.targets
      → alias_at (host_aliases u s own) i ≡ some a
      → Lacks b'/' a
      → claims u own a ≡ false
  host_aliases-claims s own i a safe h lacks =
      let (t, m, us, e, al) = host_aliases-MadeFor s own i a h in
      by_form t us (All-Member IsSafe s.targets t safe m).id_safe al (alias_of-Form s.targets own t)
    where
      by_form :
          (t : Target)
          → usable t ≡ true
          → IsId t.id
          → a ≡ alias_of u s.targets own t
          → Form s.targets t (alias_of u s.targets own t)
          → claims u own a ≡ false
      by_form t us safe_id al (by_id f) = absurd (no_slash t.id (rw (al ∙ f) at lacks))
      by_form t us safe_id al (prefixed f _) = absurd (no_slash t.name (rw (al ∙ f) at lacks))
      by_form t us safe_id al (bare f _) =
          rw (al ∙ f) (alias_of-claims u s.targets own t us safe_id f)
