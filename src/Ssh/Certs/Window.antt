-- ===== src/Ssh/Certs/Window.antt =====
-- internal/ssh/certs.go: the validity window of a certificate.
use nk.Base.{
  ℕ, ◌+◌, ◌-◌, ◌*◌, ◌/◌, ◌≤◌, ◌<◌, ◌≡◌, sym, ◌≢◌, ◌↔◌, inl, inr, refl, true, false, List, [], ◌∷◌,
  ◌++◌, Option, none, some, arith, ap, All, Member, any, Bool-cases, both_true,
}
use nk.Base.Text.{Text, text_eq_iff, text_eq_refl, has_suffix, has_suffix_sound}
use nk.Base.Clock.{Time, pos, second, sign_bit, unix_to_internal, zero_time, sub, half}
use nk.State.{Target, Ca}
use nk.Ssh.Certs.{
  Certificate, PublicKey, Error, certificate, unix_time, cert_window, covers, signed_by, outside,
  check_parsed, parse_cert, check_cert, cert_fresh, half_life, passes,
}

-- Below this many seconds past 1970 an instant fits the 64-bit seconds of `time.Time`.
abbrev pub representable : ℕ
representable = sign_bit - unix_to_internal

-- The instant that many seconds past 1970.
abbrev pub at_second : ℕ → Time
at_second s = zero_time + (unix_to_internal + s) * second

unix_time-at_second : (s : ℕ) → s < representable → unix_time s ≡ at_second s
unfolding unix_time
unix_time-at_second s h = omega arith

-- From there on the addition of the epoch overflows, and the instant lies before year 1.
unix_time_wraps : (s : ℕ) → representable ≤ s → unix_time s < zero_time
unfolding unix_time
unix_time_wraps s h = omega arith

outside_iff :
    (now after before margin : ℕ)
    → margin < sign_bit - 1
    → (outside now (after, before) (pos margin) ≡ false) ↔ ((after ≤ now) × (now + margin < before))
unfolding outside
outside_iff now after before margin h = ground arith

outside_past :
    (now after before margin : ℕ) → before ≤ now → outside now (after, before) (pos margin) ≡ true
unfolding outside
outside_past now after before margin h = ground arith

module _ (parse_key : Text → Option PublicKey) (marshal : PublicKey → Text) where
  check_parsed_sound :
      (now : Time) (c : Certificate) (ca : Text) (margin : ℕ)
      → c.valid_after < representable
      → c.valid_before < representable
      → margin < sign_bit - 1
      → check_parsed parse_key marshal now c ca (pos margin) ≡ none
      → (c.signature_key ≡ some ca)
        × (at_second c.valid_after ≤ now)
        × (now + margin < at_second c.valid_before)
  unfolding check_parsed cert_window
  check_parsed_sound now c ca margin ha hb hm h =
      let iff = outside_iff now (unix_time c.valid_after) (unix_time c.valid_before) margin hm in
      let bounds = iff.0 (ground arith) in
      (
        signer c.signature_key (ground arith),
        omega (arith, unix_time-at_second c.valid_after ha, bounds.0),
        omega (arith, unix_time-at_second c.valid_before hb, bounds.1),
      )
    where
      signer : (k : Option Text) → signed_by k ca ≡ true → k ≡ some ca
      signer none e = cc
      signer (some k) e = ap some ((text_eq_iff k ca).0 e)

  check_parsed_complete :
      (now : Time) (c : Certificate) (ca : Text) (margin : ℕ)
      → c.valid_after < representable
      → c.valid_before < representable
      → margin < sign_bit - 1
      → c.signature_key ≡ some ca
      → at_second c.valid_after ≤ now
      → now + margin < at_second c.valid_before
      → check_parsed parse_key marshal now c ca (pos margin) ≡ none
  unfolding check_parsed cert_window
  check_parsed_complete now c ca margin ha hb hm k lo hi =
      let iff = outside_iff now (unix_time c.valid_after) (unix_time c.valid_before) margin hm in
      let inside = iff.1 (
        omega (arith, unix_time-at_second c.valid_after ha),
        omega (arith, unix_time-at_second c.valid_before hb),
      ) in
      rw (k, text_eq_refl ca, inside)

  -- Where the line parses as a certificate and the CA's key parses, and both ends of the window fit
  -- the clock, `CheckCert` accepts exactly when that CA signed the certificate, it is valid now,
  -- and it stays valid for longer than the margin.
  pub check_cert_iff :
      (now : Time) (line ca_key : Text) (c : Certificate) (ca : PublicKey) (margin : ℕ)
      → parse_key line ≡ some (certificate c)
      → parse_key ca_key ≡ some ca
      → c.valid_after < representable
      → c.valid_before < representable
      → margin < sign_bit - 1
      → (check_cert parse_key marshal now line ca_key (pos margin) ≡ none) ↔ (
          (c.signature_key ≡ some (marshal ca))
          × (at_second c.valid_after ≤ now)
          × (now + margin < at_second c.valid_before))
  unfolding check_cert parse_cert
  check_cert_iff now line ca_key c ca margin pl pc ha hb hm =
      rw (pl, pc, check_cert, parse_cert)
        (
          check_parsed_sound now c (marshal ca) margin ha hb hm,
          λ h. check_parsed_complete now c (marshal ca) margin ha hb hm h.0 h.1 h.2,
        )

  -- A certificate whose end lies too far in the future for the clock, such as one that is valid
  -- forever, is never accepted after January 1 of year 1: its end wraps into the past.
  pub check_cert-forever :
      (now : Time) (line ca_key : Text) (c : Certificate) (margin : ℕ)
      → parse_key line ≡ some (certificate c)
      → representable ≤ c.valid_before
      → zero_time ≤ now
      → check_cert parse_key marshal now line ca_key (pos margin) ≢ none
  unfolding check_cert parse_cert check_parsed cert_window
  check_cert-forever now line ca_key c margin pl far later = ground (
    arith,
    outside_past now (unix_time c.valid_after) (unix_time c.valid_before) margin,
    unix_time_wraps c.valid_before far,
  )

any_suffix_sound :
    (ps : List Text) (e : Text)
    → any (λ p. has_suffix p e) ps ≡ true
    → (q : Text) × Member (q ++ e) ps
any_suffix_sound [] e h = cc
any_suffix_sound (p ∷ ps) e h = elim (Bool-cases (has_suffix p e)) [
  | inl t ↦ let (q, eq) = has_suffix_sound p e t in (q, inl (sym eq))
  | inr t ↦ let (q, m) = any_suffix_sound ps e (rw t at h) in (q, inr m)
]

-- A principal of the certificate ends with a colon and the account.
abbrev pub Names : Certificate → Text → Type 0
Names c account = (q : Text) × Member (q ++ (b':' ∷ account)) c.valid_principals

covers_sound :
    (c : Certificate) (accounts : List Text) → covers c accounts ≡ true → All (Names c) accounts
unfolding covers
covers_sound c [] h = tt
covers_sound c (a ∷ rest) h = (
  any_suffix_sound c.valid_principals (b':' ∷ a) (ground arith),
  covers_sound c rest (ground arith),
)

passes-none : (o : Option Error) → passes o ≡ true → o ≡ none
passes-none none h = refl
passes-none (some e) h = cc

half_life_at :
    (c : Certificate)
    → c.valid_after ≤ c.valid_before
    → c.valid_before < representable
    → (c.valid_before - c.valid_after) * second < sign_bit
    → half_life c ≡ pos ((c.valid_before - c.valid_after) * second / 2)
unfolding cert_window sub half
half_life_at c le hb fits =
    rw (unix_time-at_second c.valid_after (omega arith), unix_time-at_second c.valid_before hb)
      (ground arith)

module _ (parse_key : Text → Option PublicKey) (marshal : PublicKey → Text) where
  -- A certificate that counts as fresh is signed by the target's CA and valid now, names every
  -- account granted there, and has more than half of its life left, provided that its window fits
  -- the clock and is shorter than the 292 years of a `Duration`.
  pub cert_fresh_sound :
      (now : Time) (line : Text) (t : Target) (ca : Ca) (c : Certificate) (key : PublicKey)
      → parse_key line ≡ some (certificate c)
      → parse_key ca.public_key ≡ some key
      → c.valid_after ≤ c.valid_before
      → c.valid_before < representable
      → (c.valid_before - c.valid_after) * second < sign_bit
      → cert_fresh parse_key marshal now (some line) t ca ≡ true
      → (c.signature_key ≡ some (marshal key))
        × All (Names c) t.usernames
        × (at_second c.valid_after ≤ now)
        × (now + (c.valid_before - c.valid_after) * second / 2 < at_second c.valid_before)
  unfolding cert_fresh parse_cert
  cert_fresh_sound now line t ca c key pl pk le hb fits h =
      let fresh =
        both_true (covers c t.usernames)
          (passes (check_cert parse_key marshal now line ca.public_key (half_life c)))
          (rw (pl, cert_fresh, parse_cert) at h) in
      let margin = half_life_at c le hb fits in
      let checked : check_cert parse_key marshal now line ca.public_key
            (pos ((c.valid_before - c.valid_after) * second / 2))
          ≡ none =
        passes-none _ (rw margin at fresh.1) in
      let (signed, from, until) =
        (check_cert_iff parse_key marshal now line ca.public_key c key _ pl pk (omega arith) hb
            (omega arith)).0
          checked in
      (signed, covers_sound c t.usernames fresh.0, from, until)
