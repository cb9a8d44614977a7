-- ===== src/Client/Trust/Kept.antt =====
-- internal/client/trust.go: which CA is kept, and on whose word.
use nk.Base.{
  ◌≡◌, refl, sym, ap, ◌∙◌, ◌⊎◌, inl, inr, Bool, true, false, ◌&&◌, not, List, [], ◌∷◌, Option, none,
  some, Member, Bool-cases,
}
use nk.Base.Text.{Text, is_empty}
use nk.State.{State}
use nk.State.Disk.{Disk, Failure, save}
use nk.Client.Trust.{
  ask, Root, Advertised, no_ca, unreachable, advertised, TrustError, Machine, TrustRun, keeps,
  offer_install, saved_run, reconnect, keep_fetched, keep_ca, pin_server, keep_any, or_else,
  confirm_advertised, confirm_server,
}

-- The server, the session and the snapshot are the same.
abbrev pub SameSession : State → State → Type 0
SameSession s t =
    (t.api_url ≡ s.api_url) × (t.session_token ≡ s.session_token) × (t.cache ≡ s.cache)

SameSession-trans : (a b c : State) → SameSession a b → SameSession b c → SameSession a c
SameSession-trans a b c (p, q, r) (x, y, z) = (x ∙ p, y ∙ q, z ∙ r)

-- Without an error the CA that is kept is the one that was fetched; with one it is that or the old.
abbrev Keeps : Option Text → State → State → Option TrustError → Type 0
Keeps ca s t none = SameSession s t × (ca ≡ some t.api_ca)
Keeps ca s t (some e) = SameSession s t × ((t.api_ca ≡ s.api_ca) ⊎ (ca ≡ some t.api_ca))

module _ (m : Machine) where
  saved_run-Keeps :
      (s t : State) (o : Disk × Option Failure)
      → SameSession s t
      → let r = saved_run m t o in Keeps (some t.api_ca) s r.state r.error
  saved_run-Keeps s t (d, none) h = (h, refl)
  saved_run-Keeps s t (d, some x) h = (h, inr refl)

  reconnect-Keeps :
      (s t : State) (o : Disk × Option Failure)
      → SameSession s t
      → let r = reconnect m t.api_ca t o in Keeps (some t.api_ca) s r.state r.error
  unfolding reconnect
  reconnect-Keeps s t (d, some x) h = (h, inr refl)
  reconnect-Keeps s t (d, none) h = elim (Bool-cases (m.dials t.api_ca)) [
    | inr e ↦ simp e (h, inr refl)
    | inl e ↦ elim (Bool-cases (not (m.system_trusts t.api_url) && offer_install m t.api_ca)) [
      | inr f ↦ simp (e, f) (h, refl)
      | inl f ↦
          let t' : State = record t { config = record t.config { api_ca_installed = true } } in
          simp (e, f) (saved_run-Keeps s t' (save m.config_ok m.cache_ok t' d) h)
    ]
  ]

  keep_fetched-Keeps :
      (ca : Option Text) (s : State) (d : Disk)
      → let r = keep_fetched m ca s d in Keeps ca s r.state r.error
  unfolding keep_fetched
  keep_fetched-Keeps none s d = ((refl, refl, refl), inl refl)
  keep_fetched-Keeps (some ca) s d =
      reconnect-Keeps s (record s { config = record s.config { api_ca = ca } }) _ (refl, refl, refl)

  keep_ca-Keeps :
      (pin : Text) (s : State) (d : Disk)
      → let r = keep_ca m pin s d in Keeps (m.bootstrap s.api_url pin) s r.state r.error
  unfolding keep_ca
  keep_ca-Keeps pin s d = keep_fetched-Keeps (m.bootstrap s.api_url pin) s d

  -- How pinServer may end.
  abbrev pub IsPinned : State → State → Option TrustError → Type 0
  IsPinned s t (some e) = SameSession s t
  IsPinned s t none =
      SameSession s t
      × ((is_empty s.pin ≡ true)
          ⊎ (keeps m t.api_ca s.pin ≡ true)
          ⊎ (m.bootstrap s.api_url s.pin ≡ some t.api_ca))

  Keeps-IsPinned :
      (s t : State) (e : Option TrustError)
      → Keeps (m.bootstrap s.api_url s.pin) s t e
      → IsPinned s t e
  Keeps-IsPinned s t none (h, k) = (h, inr (inr k))
  Keeps-IsPinned s t (some e) (h, k) = h

  -- Where pinServer ends without an error there is no --pin, the CA that is kept has that pin, or
  -- it is the one that was just fetched from this server and checked against that pin; in any case
  -- the server, the session and the snapshot are as before.
  pub pin_server-IsPinned :
      (s : State) (d : Disk) → let r = pin_server m s d in IsPinned s r.state r.error
  unfolding pin_server
  pin_server-IsPinned s d = elim (Bool-cases (is_empty s.pin)) [
    | inl e ↦ rw e ((refl, refl, refl), inl e)
    | inr e ↦ elim (Bool-cases (keeps m s.api_ca s.pin)) [
      | inl f ↦ rw (e, f) ((refl, refl, refl), inr (inl f))
      | inr f ↦
          (let r = keep_ca m s.pin s d in
            rw (e, f) (Keeps-IsPinned s r.state r.error (keep_ca-Keeps s.pin s d)))
    ]
  ]

  -- The CA is one of these, fetched by its pin; or there was none to fetch and no error before.
  -- With an error the CA is one of these or the old one.
  abbrev pub Chosen : List Root → Option TrustError → State → State → Option TrustError → Type 0
  Chosen roots e s t (some x) =
      SameSession s t
      × ((t.api_ca ≡ s.api_ca)
          ⊎ ((c : Root) × Member c roots × (m.bootstrap s.api_url c.pin ≡ some t.api_ca)))
  Chosen roots e s t none =
      SameSession s t
      × (((roots ≡ []) × (e ≡ none))
          ⊎ ((c : Root) × Member c roots × (m.bootstrap s.api_url c.pin ≡ some t.api_ca)))

  Chosen-first :
      (c : Root) (cs : List Root) (e : Option TrustError) (s t : State)
      → Keeps (m.bootstrap s.api_url c.pin) s t none
      → Chosen (c ∷ cs) e s t none
  Chosen-first c cs e s t (h, k) = (h, inr (c, inl refl, k))

  Chosen-next :
      (c : Root) (cs : List Root) (e : Option TrustError) (x : TrustError) (s t u : State)
      (f : Option TrustError)
      → Keeps (m.bootstrap s.api_url c.pin) s t (some x)
      → Chosen cs (some x) t u f
      → Chosen (c ∷ cs) e s u f
  Chosen-next c cs e x s t u (some y) (h, inl a) (k, inl b) =
      (SameSession-trans s t u h k, inl (b ∙ a))
  Chosen-next c cs e x s t u (some y) (h, inr a) (k, inl b) =
      (SameSession-trans s t u h k, inr (c, inl refl, a ∙ ap some (sym b)))
  Chosen-next c cs e x s t u (some y) (h, a) (k, inr (b, i, f)) =
      (SameSession-trans s t u h k, inr (b, inr i, ap (λ z. m.bootstrap z b.pin) (sym h.0) ∙ f))
  Chosen-next c cs e x s t u none (h, old) (k, inl (n, absurd_error)) = cc
  Chosen-next c cs e x s t u none (h, old) (k, inr (b, i, f)) =
      (SameSession-trans s t u h k, inr (b, inr i, ap (λ a. m.bootstrap a b.pin) (sym h.0) ∙ f))

  or_else-Chosen :
      (c : Root) (cs : List Root) (e f : Option TrustError) (s : State) (r : TrustRun)
      (next : TrustError → TrustRun)
      → r.error ≡ f
      → Keeps (m.bootstrap s.api_url c.pin) s r.state f
      → ((x : TrustError) → Chosen cs (some x) r.state (next x).state (next x).error)
      → let o = or_else m f r next in Chosen (c ∷ cs) e s o.state o.error
  or_else-Chosen c cs e none s r next q k h = rw q (Chosen-first c cs e s r.state k)
  or_else-Chosen c cs e (some x) s r next q k h =
      Chosen-next c cs e x s r.state (next x).state (next x).error k (h x)

  keep_any-Chosen :
      (roots : List Root) (e : Option TrustError) (s : State) (d : Disk)
      → let r = keep_any m roots e s d in Chosen roots e s r.state r.error
  unfolding keep_any
  keep_any-Chosen [] none s d = ((refl, refl, refl), inl (refl, refl))
  keep_any-Chosen [] (some x) s d = ((refl, refl, refl), inl refl)
  keep_any-Chosen (c ∷ cs) e s d =
      let r = keep_ca m c.pin s d in
      or_else-Chosen c cs e r.error s r (λ x. keep_any m cs (some x) r.state r.disk) refl
        (keep_ca-Keeps c.pin s d) (λ x. keep_any-Chosen cs (some x) r.state r.disk)

  -- How confirmServer may end: the user has said yes at a terminal, and the CA is one that the server
  -- advertised, fetched by its pin.
  abbrev pub Asked : Bool → State → State → Option TrustError → Type 0
  Asked interactive s t e =
      (interactive ≡ true)
      × (m.terminal ≡ true)
      × (ask m.case_tables m.trust_line false ≡ true)
      × ((roots : List Root) × (m.advertised_by s.api_url ≡ advertised roots)
          × Chosen roots none s t e)

  -- With an error nothing has changed, unless the user has said yes.
  abbrev pub IsConfirmed : Bool → State → Disk → State → Disk → Option TrustError → Type 0
  IsConfirmed interactive s d t after none = Asked interactive s t none
  IsConfirmed interactive s d t after (some e) =
      ((t ≡ s) × (after ≡ d)) ⊎ Asked interactive s t (some e)

  Chosen-IsConfirmed :
      (roots : List Root) (i : Bool) (s : State) (d : Disk) (t : State) (after : Disk)
      (e : Option TrustError)
      → i ≡ true
      → m.terminal ≡ true
      → ask m.case_tables m.trust_line false ≡ true
      → m.advertised_by s.api_url ≡ advertised roots
      → Chosen roots none s t e
      → IsConfirmed i s d t after e
  Chosen-IsConfirmed roots i s d t after none p q y a h = (p, q, y, (roots, a, h))
  Chosen-IsConfirmed roots i s d t after (some e) p q y a h = inr (p, q, y, (roots, a, h))

  confirm_advertised-IsConfirmed :
      (a : Advertised) (i : Bool) (s : State) (d : Disk)
      → i ≡ true
      → m.terminal ≡ true
      → m.advertised_by s.api_url ≡ a
      → let r = confirm_advertised m a s d in IsConfirmed i s d r.state r.disk r.error
  unfolding confirm_advertised
  confirm_advertised-IsConfirmed no_ca i s d p q a = inl (refl, refl)
  confirm_advertised-IsConfirmed unreachable i s d p q a = inl (refl, refl)
  confirm_advertised-IsConfirmed (advertised roots) i s d p q a =
      elim (Bool-cases (ask m.case_tables m.trust_line false)) [
        | inr y ↦ simp y (inl (refl, refl))
        | inl y ↦
            let r = keep_any m roots none s d in
            simp y (
              Chosen-IsConfirmed roots i s d r.state r.disk r.error p q y a
                (keep_any-Chosen roots none s d))
      ]

  -- confirmServer changes neither the state nor the files unless the command is interactive and the
  -- user has said yes at a terminal. Where it ends without an error that is so, and the CA that is
  -- kept was fetched from this server by the pin of a certificate that it advertised, or it
  -- advertised an empty list; with an error behind a yes the CA is such a one or the one from
  -- before. The server, the session and the snapshot are always as before.
  pub confirm_server-IsConfirmed :
      (i : Bool) (s : State) (d : Disk)
      → let r = confirm_server m i s d in IsConfirmed i s d r.state r.disk r.error
  unfolding confirm_server
  confirm_server-IsConfirmed i s d = elim (Bool-cases i) [
    | inr e ↦ simp e (inl (refl, refl))
    | inl e ↦ elim (Bool-cases m.terminal) [
      | inr f ↦ simp (e, f) (inl (refl, refl))
      | inl f ↦
          simp (e, f)
            (confirm_advertised-IsConfirmed (m.advertised_by s.api_url) true s d refl f refl)
    ]
  ]
