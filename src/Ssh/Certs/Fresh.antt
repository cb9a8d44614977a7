-- ===== src/Ssh/Certs/Fresh.antt =====
-- internal/ssh/certs.go: a certificate that CertFresh accepts, CertValid accepts too.
use nk.Base.{
  ℕ, ◌≡◌, ◌≤◌, refl, inl, inr, true, false, Option, none, some, ltb, Bool-cases, both_true, arith,
}
use nk.Base.Text.{Text}
use nk.Base.Clock.{Time, pos, leb_ℤ, sub, saturate, half}
use nk.State.{Target, Ca}
use nk.Ssh.Certs.{
  outside, PublicKey, plain_key, certificate, Certificate, passes, check_parsed, half_life,
  signed_by, cert_window, bad_ca_key, cert_fresh, cert_valid, check_cert, parse_cert, covers,
}

-- The time left is positive, or at most half of the life.
left_or_half :
    (a b now : ℕ)
    → a ≤ now
    → (leb_ℤ (sub b now) (half (sub b a)) ≡ false)
    → leb_ℤ (sub b now) (pos 0) ≡ false
unfolding sub saturate half
left_or_half a b now h k = ground arith

outside_half :
    (now a b : ℕ) → outside now (a, b) (half (sub b a)) ≡ false → outside now (a, b) (pos 0) ≡ false
unfolding outside
outside_half now a b h = elim (Bool-cases (ltb now a)) [
  | inl e ↦ cc (rw (outside, e) at h)
  | inr e ↦ rw (outside, e) (left_or_half a b now (ground arith) (rw (outside, e) at h))
]

module _ (parse_key : Text → Option PublicKey) (marshal : PublicKey → Text) where
  parsed_passes :
      (now : Time) (c : Certificate) (ca : Text)
      → passes (check_parsed parse_key marshal now c ca (half_life c)) ≡ true
      → passes (check_parsed parse_key marshal now c ca (pos 0)) ≡ true
  unfolding check_parsed
  parsed_passes now c ca h = elim (Bool-cases (signed_by c.signature_key ca)) [
    | inr e ↦ cc (rw e at h)
    | inl e ↦ elim (Bool-cases (outside now (cert_window c) (half_life c))) [
      | inl f ↦ cc (rw (e, f) at h)
      | inr f ↦ rw (e, outside_half now (cert_window c).0 (cert_window c).1 f) refl
    ]
  ]

  checked_passes :
      (now : Time) (line : Text) (ca : Text) (c : Certificate) (k : Option PublicKey)
      → parse_key ca ≡ k
      → passes (elim k [
        | none ↦ some bad_ca_key
        | some key ↦ check_parsed parse_key marshal now c (marshal key) (half_life c)
      ])
        ≡ true
      → passes (elim k [
        | none ↦ some bad_ca_key
        | some key ↦ check_parsed parse_key marshal now c (marshal key) (pos 0)
      ])
        ≡ true
  checked_passes now line ca c none e h = h
  checked_passes now line ca c (some key) e h = parsed_passes now c (marshal key) h

  line_valid :
      (now : Time) (line : Text) (t : Target) (ca : Ca) (k : Option PublicKey)
      → parse_key line ≡ k
      → cert_fresh parse_key marshal now (some line) t ca ≡ true
      → cert_valid parse_key marshal now (some line) ca (pos 0) ≡ true
  unfolding cert_fresh cert_valid check_cert parse_cert
  line_valid now line t ca none e h = cc (rw (cert_fresh, check_cert, parse_cert, e) at h)
  line_valid now line t ca (some (plain_key k)) e h =
      cc (rw (cert_fresh, check_cert, parse_cert, e) at h)
  line_valid now line t ca (some (certificate c)) e h =
      let (v, p) =
        both_true (covers c t.usernames) _ (rw (cert_fresh, check_cert, parse_cert, e) at h) in
      rw (cert_valid, check_cert, parse_cert, e)
        (checked_passes now line ca.public_key c (parse_key ca.public_key) refl
          (rw (check_cert, parse_cert, e) at p))

  -- Whatever its window is, a certificate that is fresh is valid now.
  pub cert_fresh-valid :
      (now : Time) (file : Option Text) (t : Target) (ca : Ca)
      → cert_fresh parse_key marshal now file t ca ≡ true
      → cert_valid parse_key marshal now file ca (pos 0) ≡ true
  unfolding cert_fresh
  cert_fresh-valid now none t ca h = cc
  cert_fresh-valid now (some line) t ca h = line_valid now line t ca (parse_key line) refl h
