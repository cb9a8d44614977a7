-- ===== src/Cmd/Load/Admitted.antt =====
-- internal/cmd/cmd.go: which states loadState hands to a command.
use nk.Base.{◌≡◌, refl, ◌⊎◌, inl, inr, Bool, true, false, [], Option, none, some, Bool-cases}
use nk.Base.Text.{Text, text_eq, text_eq_iff, is_empty, has_prefix}
use nk.State.{State, empty_cache}
use nk.Cmd.Load.{
  Globals, Url, Load, refused, loaded, sa_prefix, with_flags, at_server, keep_bundle, with_ca_file,
  checked_url, load_state, plain_http,
}

-- The session and the snapshot are the stored ones, of the same server, or there are none.
abbrev pub KeepsServer : State → State → Type 0
KeepsServer stored s =
    ((s.api_url ≡ stored.api_url)
      × (s.session_token ≡ stored.session_token)
      × (s.cache ≡ stored.cache))
    ⊎ ((s.session_token ≡ []) × (s.cache ≡ empty_cache))

-- The server is the one of --api, or the stored one where --api is not set.
abbrev pub NamesServer : Globals → State → State → Type 0
NamesServer g stored s = (s.api_url ≡ g.api) ⊎ ((s.api_url ≡ stored.api_url) × (g.api_set ≡ false))

abbrev HasToken : Globals → State → Type 0
HasToken g s =
    (s.token ≡ g.token) × ((is_empty s.token ≡ true) ⊎ (has_prefix s.token sa_prefix ≡ true))

at_server-NamesServer :
    (g : Globals) (s : State) (b c : Bool)
    → text_eq s.api_url g.api ≡ b
    → is_empty s.api_url ≡ c
    → NamesServer g s (at_server g s)
      × KeepsServer s (at_server g s)
      × ((at_server g s).token ≡ s.token)
unfolding at_server
at_server-NamesServer g s true c e f =
    simp e (inl (let (to, _) = text_eq_iff s.api_url g.api in to e), inl (refl, refl, refl), refl)
at_server-NamesServer g s false true e f = simp (e, f) (inl refl, inr (refl, refl), refl)
at_server-NamesServer g s false false e f = elim (Bool-cases g.api_set) [
  | inl h ↦ simp (e, f, h) (inl refl, inr (refl, refl), refl)
  | inr h ↦ simp (e, f, h) (inr (refl, refl), inl (refl, refl, refl), refl)
]

module _ (parse_url : Text → Option Url) (is_loopback : Text → Option Bool)
    (read_file : Text → Option Text) (is_bundle : Text → Bool) where
  abbrev pub IsAdmitted : Globals → State → Load → Type 0
  IsAdmitted g stored (refused e) = Unit
  IsAdmitted g stored (loaded s) =
      (plain_http parse_url is_loopback read_file is_bundle s.api_url ≡ false)
      × HasToken g s
      × NamesServer g stored s
      × KeepsServer stored s

  keep_bundle-IsAdmitted :
      (g : Globals) (stored s : State) (ca : Option Text)
      → IsAdmitted g stored (loaded s)
      → IsAdmitted g stored (keep_bundle parse_url is_loopback read_file is_bundle s ca)
  unfolding keep_bundle
  keep_bundle-IsAdmitted g stored s none h = tt
  keep_bundle-IsAdmitted g stored s (some ca) h = elim (Bool-cases (is_bundle ca)) [
    | inl e ↦ rw e h
    | inr e ↦ rw e tt
  ]

  checked_url-IsAdmitted :
      (g : Globals) (stored s : State) (path : Text)
      → HasToken g s
      → NamesServer g stored s
      → KeepsServer stored s
      → IsAdmitted g stored (checked_url parse_url is_loopback read_file is_bundle path s)
  unfolding checked_url with_ca_file
  checked_url-IsAdmitted g stored s path t n k =
      elim (Bool-cases (plain_http parse_url is_loopback read_file is_bundle s.api_url)) [
        | inl e ↦ rw e tt
        | inr e ↦ elim (Bool-cases (is_empty path)) [
          | inl f ↦ rw (e, f) (e, t, n, k)
          | inr f ↦ rw (e, f) (keep_bundle-IsAdmitted g stored s (read_file path) (e, t, n, k))
        ]
      ]

  -- A state that loadState returns is not reached over plain http except on this machine, has the
  -- token of the environment, which is empty or starts with nk_sa_, names the server of --api, or
  -- the stored one where --api is not set, and has the stored session and snapshot of that same
  -- server or none.
  pub load_state-IsAdmitted :
      (g : Globals) (stored : State)
      → IsAdmitted g stored (load_state parse_url is_loopback read_file is_bundle g stored)
  unfolding load_state with_flags
  load_state-IsAdmitted g stored =
      let s = with_flags g stored in
      let (n, k, t) = at_server-NamesServer g s _ _ refl refl in
      elim (Bool-cases (is_empty g.token)) [
        | inl e ↦
            rw e (checked_url-IsAdmitted g stored (at_server g s) g.ca_file (t, inl (rw t e)) n k)
        | inr e ↦ elim (Bool-cases (has_prefix g.token sa_prefix)) [
          | inl f ↦
              rw (e, f)
                (checked_url-IsAdmitted g stored (at_server g s) g.ca_file (t, inr (rw t f)) n k)
          | inr f ↦ rw (e, f) tt
        ]
      ]
