-- ===== src/Ssh/Certs/Cleanup.antt =====
-- internal/ssh/certs.go: which certificate files `CleanupCerts` leaves.
use nk.Base.{◌≡◌, Bool, true, List, [], ◌∷◌, inl, inr, Member, map, Bool-cases}
use nk.Base.Text.{Text, contains, contains_sound, contains_complete}
use nk.State.{Target}
use nk.Ssh.Certs.{Files, cert_name, cleanup_files, cleanup_certs}

module _ (removable : Text → Bool) where
  cleanup_files-Member :
      (valid : List Text) (fs : Files) (f : Text × Text)
      → Member f fs
      → contains valid f.0 ≡ true
      → Member f (cleanup_files removable valid fs).0
  unfolding cleanup_files
  cleanup_files-Member valid [] f m h = elim m [ ]
  cleanup_files-Member valid ((name, body) ∷ fs) f (inl e) h = rw (rw e at h) (inl e)
  cleanup_files-Member valid ((name, body) ∷ fs) f (inr m) h =
      elim (Bool-cases (contains valid name)) [
        | inl c ↦ rw c (inr (cleanup_files-Member valid fs f m h))
        | inr c ↦ elim (Bool-cases (removable name)) [
          | inl r ↦ rw (c, r) (cleanup_files-Member valid fs f m h)
          | inr r ↦ rw (c, r) (inr m)
        ]
      ]

  cleanup_files-kept :
      (valid : List Text) (fs : Files) (f : Text × Text)
      → (cleanup_files removable valid fs).1 ≡ true
      → Member f (cleanup_files removable valid fs).0
      → Member f fs × Member f.0 valid
  unfolding cleanup_files
  cleanup_files-kept valid [] f ok m = elim m [ ]
  cleanup_files-kept valid ((name, body) ∷ fs) f ok m = elim (Bool-cases (contains valid name)) [
    | inl c ↦ first c (rw c at m) (cleanup_files-kept valid fs f (rw c at ok))
    | inr c ↦ elim (Bool-cases (removable name)) [
      | inl r ↦
          let (n, v) = cleanup_files-kept valid fs f (rw (c, r) at ok) (rw (c, r) at m) in
          (inr n, v)
      | inr r ↦ cc (rw (c, r) at ok)
    ]
  ]
    where
      first :
          contains valid name ≡ true
          → Member f ((name, body) ∷ (cleanup_files removable valid fs).0)
          → (Member f (cleanup_files removable valid fs).0 → Member f fs × Member f.0 valid)
          → Member f ((name, body) ∷ fs) × Member f.0 valid
      first c (inl e) later = (inl e, contains_sound valid f.0 (rw e c))
      first c (inr n) later = let (k, v) = later n in (inr k, v)

  -- Whatever is removed, and also where a removal fails, the certificate of every target in the
  -- list stays.
  pub cleanup_certs_keeps :
      (kept : List Target) (fs : Files) (t : Target) (body : Text)
      → Member (cert_name t.id) (map (λ (k : Target). cert_name k.id) kept)
      → Member (cert_name t.id, body) fs
      → Member (cert_name t.id, body) (cleanup_certs removable kept fs).0
  unfolding cleanup_certs
  cleanup_certs_keeps kept fs t body k m =
      cleanup_files-Member _ fs (cert_name t.id, body) m (contains_complete _ _ k)

  -- A cleanup without an error leaves only files that were there and belong to a target of the
  -- list.
  pub cleanup_certs_leaves :
      (kept : List Target) (fs : Files) (f : Text × Text)
      → (cleanup_certs removable kept fs).1 ≡ true
      → Member f (cleanup_certs removable kept fs).0
      → Member f fs × Member f.0 (map (λ (k : Target). cert_name k.id) kept)
  unfolding cleanup_certs
  cleanup_certs_leaves kept fs f ok m = cleanup_files-kept _ fs f ok m
