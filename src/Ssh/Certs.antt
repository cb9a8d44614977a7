-- ===== src/Ssh/Certs.antt =====
-- internal/ssh/certs.go: when a cached certificate is used, renewed and removed.
-- Parsing a certificate is the job of golang.org/x/crypto/ssh: `parse_key` stands for its
-- `ParseAuthorizedKey`. The certificate files are a directory from target ids to contents.
pub mod Window
pub mod Fresh
pub mod Cleanup
use nk.Base.{
  ℕ, Bool, true, false, ◌&&◌, not, List, [], ◌∷◌, ◌++◌, Option, none, some, any, all, min, ltb, map,
  if◌then◌else◌, ◌-◌,
}
use nk.Base.Text.{Text, codes, text_eq, has_suffix, contains}
use nk.Base.Clock.{Time, Duration, sub, half, leb_ℤ, unix, sign_bit}
use nk.State.{Target, Ca}

-- The fields of `ssh.Certificate` that nk reads; `marshal` is the wire form of the signing key.
pub record Certificate : Type 0 where
  pub valid_after : ℕ
  pub valid_before : ℕ
  pub valid_principals : List Text
  pub signature_key : Option Text

-- What a line of authorized_keys holds: a certificate, or a plain key in wire form.
pub data PublicKey : Type 0 where
  certificate : Certificate → PublicKey
  plain_key : Text → PublicKey

pub data Error : Type 0 where
  unparsable bad_ca_key different_ca expired : Error

-- unixTime: seconds past 1970, held to the range of int64.
unfoldable pub unix_time : ℕ → Time
unfolding unix
unix_time t = unix (min t (sign_bit - 1))

-- CertWindow
unfoldable pub cert_window : Certificate → Time × Time
unfolding unix_time
cert_window c = (unix_time c.valid_after, unix_time c.valid_before)

-- covers
unfoldable pub covers : Certificate → List Text → Bool
unfolding has_suffix
covers c accounts = all (λ a. any (λ p. has_suffix p (b':' ∷ a)) c.valid_principals) accounts

abbrev pub signed_by : Option Text → Text → Bool
signed_by none ca = false
signed_by (some key) ca = text_eq key ca

-- `time.Now().Before(after) || time.Until(before) <= margin`
unfoldable pub outside : Time → Time × Time → Duration → Bool
unfolding sub
outside now window margin = elim (ltb now window.0) [
  | true ↦ true
  | false ↦ leb_ℤ (sub window.1 now) margin
]

abbrev pub passes : Option Error → Bool
passes none = true
passes (some e) = false

-- before.Sub(after) / 2
abbrev pub half_life : Certificate → Duration
half_life c = half (sub (cert_window c).1 (cert_window c).0)

module _ (parse_key : Text → Option PublicKey) (marshal : PublicKey → Text) where
  -- ParseCert
  unfoldable pub parse_cert : Text → Option Certificate
  parse_cert line = elim (parse_key line) [
    | none ↦ none
    | some (certificate c) ↦ some c
    | some (plain_key k) ↦ none
  ]

  -- the part of CheckCert behind the two parses; `none` is no error
  unfoldable pub check_parsed : Time → Certificate → Text → Duration → Option Error
  unfolding cert_window outside
  check_parsed now c ca margin =
      if not (signed_by c.signature_key ca)
      then some different_ca
      else if outside now (cert_window c) margin
      then some expired
      else none

  -- CheckCert
  unfoldable pub check_cert : Time → Text → Text → Duration → Option Error
  unfolding parse_cert check_parsed
  check_cert now line ca_key margin = elim (parse_cert line) [
    | none ↦ some unparsable
    | some c ↦ elim (parse_key ca_key) [
      | none ↦ some bad_ca_key
      | some ca ↦ check_parsed now c (marshal ca) margin
    ]
  ]

  -- CertValid, CertFresh and CertCovers on what os.ReadFile gives, `none` where it fails.
  unfoldable pub cert_valid : Time → Option Text → Ca → Duration → Bool
  unfolding check_cert
  cert_valid now none ca margin = false
  cert_valid now (some line) ca margin = passes (check_cert now line ca.public_key margin)

  unfoldable pub cert_covers : Option Text → Target → Bool
  unfolding parse_cert covers
  cert_covers none t = false
  cert_covers (some line) t = elim (parse_cert line) [
    | none ↦ false
    | some c ↦ covers c t.usernames
  ]

  unfoldable pub cert_fresh : Time → Option Text → Target → Ca → Bool
  unfolding check_cert covers
  cert_fresh now none t ca = false
  cert_fresh now (some line) t ca = elim (parse_cert line) [
    | none ↦ false
    | some c ↦ covers c t.usernames && passes (check_cert now line ca.public_key (half_life c))
  ]

-- A directory of certificate files, by name.
abbrev pub Files : Type 0
Files = List (Text × Text)

-- filepath.Base of paths.SSHCertificate
unfoldable pub cert_name : Text → Text
cert_name id = id ++ codes "-cert.pub"

module _ (removable : Text → Bool) where
  -- the loop of CleanupCerts over the files found; what is left, and whether all went well
  unfoldable pub cleanup_files : List Text → Files → Files × Bool
  unfolding contains
  cleanup_files valid [] = ([], true)
  cleanup_files valid ((name, body) ∷ fs) =
      let rest = cleanup_files valid fs in
      if contains valid name
      then ((name, body) ∷ rest.0, rest.1)
      else if removable name
      then rest
      else ((name, body) ∷ fs, false)

  -- CleanupCerts on the files that were listed; `false` is an error. A listing that fails, which
  -- filepath.Glob does for a bad pattern alone, is no part of this.
  unfoldable pub cleanup_certs : List Target → Files → Files × Bool
  unfolding cleanup_files cert_name
  cleanup_certs kept fs = cleanup_files (map (λ (t : Target). cert_name t.id) kept) fs
