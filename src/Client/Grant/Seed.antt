-- ===== src/Client/Grant/Seed.antt =====
-- internal/client/grant.go: what the flags give, and what a grant holds.
use nk.Base.{
  ℕ, ◌+◌, ◌≡◌, refl, sym, ap, ◌∙◌, inl, inr, ◌⊎◌, false, ◌||◌, List, [], ◌∷◌, ◌++◌, append_assoc,
  append-nil, length, length-append, arith, if◌then◌else◌, Bool-cases,
}
use nk.Base.Text.{Text, text_eq, text_eq_iff, is_empty, CaseTables}
use nk.State.{State}
use nk.Client.Grant.{
  Grant, GrantError, Answer, ok, err, parse_spec, is_nil, add_subjects, parse_onto, parse_grants,
  Directory, Kind, user, team, service_account, resolve_subject, add_id, resolve_onto,
  resolve_grant, subjects_at,
}

abbrev value : {A : Type 0} → A → Answer A → A
value d (ok a) = a
value d (err e) = d

ok_inj : {A : Type 0} (a b : A) → ok a ≡ ok b → a ≡ b
ok_inj a b e = ap (value a) e

answer_cases :
    {A : Type 0} (o : Answer A) → ((a : A) × (o ≡ ok a)) ⊎ ((e : GrantError) × (o ≡ err e))
answer_cases (ok a) = inl (a, refl)
answer_cases (err e) = inr (e, refl)

-- The subjects that the flags give an account, in their order.
abbrev pub given : Text → List Text → List Text
given a [] = []
given a (spec ∷ specs) =
    (if text_eq (parse_spec spec).0 a then (parse_spec spec).1 else []) ++ given a specs

add_subjects-at :
    (seed : List (Text × List Text)) (account a : Text) (ss : List Text)
    → subjects_at (add_subjects seed account ss) a
      ≡ subjects_at seed a ++ (if text_eq account a then ss else [])
unfolding subjects_at add_subjects
add_subjects-at [] account a ss = refl
add_subjects-at ((b, bs) ∷ seed) account a ss = elim (Bool-cases (text_eq b account)) [
  | inr e ↦ elim (Bool-cases (text_eq b a)) [
    | inr q ↦ rw (e, q) (add_subjects-at seed account a ss)
    | inl q ↦
        let differs : text_eq account a ≡ false = elim (Bool-cases (text_eq account a)) [
          | inr k ↦ k
          | inl k ↦ cc (
            e,
            (text_eq_iff b account).1 ((text_eq_iff b a).0 q ∙ sym ((text_eq_iff account a).0 k)),
          )
        ] in
        rw (e, q, differs) (sym (append-nil bs))
  ]
  | inl e ↦
      let same = (text_eq_iff b account).0 e in
      elim (Bool-cases (text_eq b a)) [
        | inl q ↦ rw (e, q, (rw same at q)) refl
        | inr q ↦ rw (e, q, (rw same at q)) (sym (append-nil (subjects_at seed a)))
      ]
]

given-parse_onto :
    (specs : List Text) (seed final : List (Text × List Text)) (a : Text)
    → parse_onto specs seed ≡ ok final
    → subjects_at final a ≡ subjects_at seed a ++ given a specs
unfolding parse_onto
given-parse_onto [] seed final a e =
    ap (λ (f : List (Text × List Text)). subjects_at f a) (sym (ok_inj seed final e))
    ∙ sym (append-nil _)
given-parse_onto (spec ∷ specs) seed final a e =
    let account = (parse_spec spec).0 in
    let subjects = (parse_spec spec).1 in
    elim (Bool-cases (is_empty account || is_nil subjects)) [
      | inl q ↦ cc (rw q at e)
      | inr q ↦
          given-parse_onto specs (add_subjects seed account subjects) final a (rw q at e)
          ∙ ap (λ (l : List Text). l ++ given a specs) (add_subjects-at seed account a subjects)
          ∙ append_assoc (subjects_at seed a) _ (given a specs)
    ]

-- Where the flags are all well formed, an account gets the subjects of every flag that names it, in
-- their order, and an account that no flag names gets none.
pub parse_grants-given :
    (specs : List Text) (seed : List (Text × List Text)) (a : Text)
    → parse_grants specs ≡ ok seed
    → subjects_at seed a ≡ given a specs
unfolding parse_grants subjects_at
parse_grants-given specs seed a e = given-parse_onto specs [] seed a e

module _ (u : CaseTables) (d : Directory) (s : State) where
  -- The ids of a grant.
  abbrev pub ids : Grant → ℕ
  ids g = length g.users + length g.teams + length g.service_accounts

  ids-add_id : (k : Kind) (i : Text) (g : Grant) → ids (add_id k i g) ≡ ids g + 1
  unfolding add_id
  ids-add_id user i g = omega (arith, length-append g.users (i ∷ []))
  ids-add_id team i g = omega (arith, length-append g.teams (i ∷ []))
  ids-add_id service_account i g = omega (arith, length-append g.service_accounts (i ∷ []))

  account-add_id : (k : Kind) (i : Text) (g : Grant) → (add_id k i g).account ≡ g.account
  unfolding add_id
  account-add_id user i g = refl
  account-add_id team i g = refl
  account-add_id service_account i g = refl

  ids-resolve_onto :
      (refs : List Text) (g final : Grant)
      → resolve_onto u d s refs g ≡ ok final
      → (ids final ≡ ids g + length refs) × (final.account ≡ g.account)
  unfolding resolve_onto
  ids-resolve_onto [] g final e =
      let same = ok_inj g final e in
      (rw (sym same) (omega arith), ap (λ (x : Grant). x.account) (sym same))
  ids-resolve_onto (ref ∷ refs) g final e = elim (answer_cases (resolve_subject u d s ref)) [
    | inr (x, q) ↦ cc (rw (resolve_onto, q) at e)
    | inl ((k, i), q) ↦
        let (n, a) = ids-resolve_onto refs (add_id k i g) final (rw (resolve_onto, q) at e) in
        (omega (arith, n, ids-add_id k i g), a ∙ account-add_id k i g)
  ]

  -- A grant that is resolved is its account's, and has as many ids as it has subjects.
  pub resolve_grant-ids :
      (account : Text) (subjects : List Text) (g : Grant)
      → resolve_grant u d s account subjects ≡ ok g
      → (ids g ≡ length subjects) × (g.account ≡ account)
  unfolding resolve_grant
  resolve_grant-ids account subjects g e =
      let (n, a) = ids-resolve_onto subjects _ g e in (omega (arith, n), a)
