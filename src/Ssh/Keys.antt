-- ===== src/Ssh/Keys.antt =====
-- internal/ssh/keys.go: the public key on disk. The signer, the host's name and the files are
-- arguments.
use nk.Base.{
  ◌≡◌, refl, ap, sym, ◌∙◌, ◌⊎◌, inl, inr, Bool, true, false, [], ◌∷◌, ◌++◌, Option, none, some,
  Member, if◌then◌else◌, Bool-cases, arith,
}
use nk.Base.Text.{Text, codes, has_prefix, trim_space}
use nk.Ssh.Certs.{Files, cleanup_certs}
use nk.Ssh.Certs.Cleanup.{cleanup_certs_leaves}

pub data KeyError : Type 0 where
  no_signer key_not_written certificates_not_removed : KeyError

-- The public key's file, the certificates, and how it ended.
pub record KeySetup : Type 0 where
  pub file : Option Text
  pub certificates : Files
  pub error : Option KeyError

-- authorizedKeyLine
unfoldable pub authorized_key_line : Text → Option Text → Text
authorized_key_line key none = key ++ codes " unknown@nokku\n"
authorized_key_line key (some host) = key ++ (codes " " ++ (host ++ codes "@nokku\n"))

abbrev pub is_current : Option Text → Text → Bool
is_current none key = false
is_current (some old) key = has_prefix old key

abbrev pub cleaned : Option Text → Files × Bool → KeySetup
cleaned file (left, true) = record { file = file; certificates = left; error = none }
cleaned file (left, false) = record {
  file = file;
  certificates = left;
  error = some certificates_not_removed;
}

module _ (removable : Text → Bool) where
  -- SetupKey behind its write: the certificates of another identity go.
  unfoldable pub drop_certificates : Option Text → Text → Files → KeySetup
  unfolding cleanup_certs
  drop_certificates none line fs = record { file = some line; certificates = fs; error = none }
  drop_certificates (some old) line fs = cleaned (some line) (cleanup_certs removable [] fs)

  -- SetupKey; the key is the signer's, `old` the file on disk.
  unfoldable pub setup_key : Option Text → Option Text → Option Text → Bool → Files → KeySetup
  unfolding has_prefix trim_space authorized_key_line drop_certificates
  setup_key none host old written fs = record {
    file = old;
    certificates = fs;
    error = some no_signer;
  }
  setup_key (some key) host old written fs =
      let trimmed = trim_space key in
      if is_current old trimmed
      then record { file = old; certificates = fs; error = none }
      else if written
      then drop_certificates old (authorized_key_line trimmed host) fs
      else record { file = old; certificates = fs; error = some key_not_written }

  -- PubKey
  unfoldable pub pub_key : Option Text → Option Text
  unfolding trim_space
  pub_key none = none
  pub_key (some file) = some (trim_space file)

  has_prefix-append : (s t : Text) → has_prefix (s ++ t) s ≡ true
  unfolding has_prefix
  has_prefix-append [] t = refl
  has_prefix-append (c ∷ s) t = ground (arith, has_prefix-append s t)

  none_left :
      (fs : Files)
      → (cleanup_certs removable [] fs).1 ≡ true
      → (cleanup_certs removable [] fs).0 ≡ []
  none_left fs ok =
      is_nil_of (cleanup_certs removable [] fs).0
        (λ f m. (cleanup_certs_leaves removable [] fs f ok m).1)
    where
      is_nil_of : (xs : Files) → ((f : Text × Text) → Member f xs → ⊥) → xs ≡ []
      is_nil_of [] h = refl
      is_nil_of (x ∷ xs) h = elim (h x (inl refl)) [ ]

  -- There is a file, and it does not start with the key.
  abbrev pub IsOther : Option Text → Text → Type 0
  IsOther none key = ⊥
  IsOther (some old) key = has_prefix old key ≡ false

  -- How SetupKey may end.
  abbrev pub IsSetUp :
      Option Text → Option Text → Files → Option Text → Files → Option KeyError → Type 0
  IsSetUp signer old fs file left (some e) =
      ((file ≡ old) × (left ≡ fs))
      ⊎ ((key : Text) × (signer ≡ some key)
          × ((line : Text) × (file ≡ some line) × (has_prefix line (trim_space key) ≡ true)))
  IsSetUp signer old fs file left none =
      (key : Text) × (signer ≡ some key)
      × ((line : Text) × (file ≡ some line)
          × (has_prefix line (trim_space key) ≡ true)
          × (((file ≡ old) × (left ≡ fs))
              ⊎ ((old ≡ none) × (left ≡ fs))
              ⊎ (IsOther old (trim_space key) × (left ≡ []))))

  line_prefix :
      (key : Text) (host : Option Text) → has_prefix (authorized_key_line key host) key ≡ true
  unfolding authorized_key_line
  line_prefix key none = has_prefix-append key (codes " unknown@nokku\n")
  line_prefix key (some h) = has_prefix-append key (codes " " ++ (h ++ codes "@nokku\n"))

  cleaned-IsSetUp :
      (key line : Text) (old : Text) (fs : Files) (o : Files × Bool)
      → has_prefix old (trim_space key) ≡ false
      → has_prefix line (trim_space key) ≡ true
      → cleanup_certs removable [] fs ≡ o
      → let r = cleaned (some line) o in
        IsSetUp (some key) (some old) fs r.file r.certificates r.error
  cleaned-IsSetUp key line old fs (left, false) n p e = inr (key, refl, (line, refl, p))
  cleaned-IsSetUp key line old fs (left, true) n p e = (
    key,
    refl,
    (line, refl, p, inr (inr (n, ap (λ x. x.0) (sym e) ∙ none_left fs (ap (λ x. x.1) e)))),
  )

  drop_certificates-IsSetUp :
      (key line : Text) (old : Option Text) (fs : Files)
      → is_current old (trim_space key) ≡ false
      → has_prefix line (trim_space key) ≡ true
      → let r = drop_certificates old line fs in
        IsSetUp (some key) old fs r.file r.certificates r.error
  unfolding drop_certificates
  drop_certificates-IsSetUp key line none fs n p =
      (key, refl, (line, refl, p, inr (inl (refl, refl))))
  drop_certificates-IsSetUp key line (some old) fs n p = cleaned-IsSetUp key line old fs _ n p refl

  current-IsSetUp :
      (key : Text) (old : Option Text) (fs : Files)
      → is_current old (trim_space key) ≡ true
      → IsSetUp (some key) old fs old fs none
  current-IsSetUp key none fs h = cc
  current-IsSetUp key (some o) fs h = (key, refl, (o, refl, h, inl (refl, refl)))

  -- SetupKey without an error leaves a public key file that starts with the signer's key: the file
  -- and the certificates are as before, or there was no file and the certificates are as before, or
  -- there was one that did not start with the key and no certificate is left. With an error the file
  -- and the certificates are as before, or the file starts with the signer's key.
  pub setup_key-IsSetUp :
      (signer host old : Option Text) (written : Bool) (fs : Files)
      → let r = setup_key signer host old written fs in
        IsSetUp signer old fs r.file r.certificates r.error
  unfolding setup_key
  setup_key-IsSetUp none host old written fs = inl (refl, refl)
  setup_key-IsSetUp (some key) host old true fs =
      elim (Bool-cases (is_current old (trim_space key))) [
        | inl e ↦ rw e (current-IsSetUp key old fs e)
        | inr e ↦
            rw e (drop_certificates-IsSetUp key _ old fs e (line_prefix (trim_space key) host))
      ]
  setup_key-IsSetUp (some key) host old false fs =
      elim (Bool-cases (is_current old (trim_space key))) [
        | inl e ↦ rw e (current-IsSetUp key old fs e)
        | inr e ↦ rw e (inl (refl, refl))
      ]
