-- ===== src/Client/Trust.antt =====
-- internal/client/trust.go: which CA nk trusts the backend through. The library that reads pins and
-- bundles and fetches the advertised CA is an argument, and so are the answers of the terminal.
pub mod Kept
use nk.Base.{
  ◌≡◌, Bool, true, false, ◌&&◌, ◌||◌, not, List, [], ◌∷◌, ◌++◌, Option, none, some, any, keep,
  if◌then◌else◌,
}
use nk.Base.Text.{Text, codes, text_eq, is_empty, is_control, trim_space, CaseTables, to_lower}
use nk.State.{State}
use nk.State.Disk.{Disk, Failure, save}

-- ask; `line` is what the user types.
unfoldable pub ask : CaseTables → Text → Bool → Bool
unfolding text_eq to_lower trim_space
ask u line default =
    let l = to_lower u (trim_space line) in
    if text_eq l (codes "y") || text_eq l (codes "yes")
    then true
    else if is_empty l
    then default
    else false

-- A certificate of a CA: its pin and its subject's name.
pub record Root : Type 0 where
  pub pin : Text
  pub common_name : Text

-- What trust.Advertised returns.
pub data Advertised : Type 0 where
  no_ca unreachable : Advertised
  advertised : List Root → Advertised

pub data TrustError : Type 0 where
  pin_not_matched dial_failed not_trusted no_ca_named not_advertised declined : TrustError
  not_saved : Failure → TrustError

-- The libraries and the machine.
pub record Machine : Type 0 where
  pub parse_pin : Text → Option Text
  pub parse_bundle : Text → Option (List Root)
  pub bootstrap : Text → Text → Option Text
  pub dials : Text → Bool
  pub advertised_by : Text → Advertised
  pub system_trusts : Text → Bool
  pub terminal : Bool
  pub trust_line : Text
  pub install_line : Text
  pub remove_line : Text
  pub installs : Text → Bool
  pub uninstalls : Text → Bool
  pub config_ok : Bool
  pub cache_ok : Bool
  pub case_tables : CaseTables

-- The state, the files, and how it ended.
pub record TrustRun : Type 0 where
  pub state : State
  pub disk : Disk
  pub error : Option TrustError

abbrev pub trust_stop : TrustError → State → Disk → TrustRun
trust_stop e s d = record { state = s; disk = d; error = some e }

abbrev pub kept : State → Disk → TrustRun
kept s d = record { state = s; disk = d; error = none }

module _ (m : Machine) where
  abbrev has_pin : Option (List Root) → Text → Bool
  has_pin none want = false
  has_pin (some roots) want = any (λ (r : Root). text_eq r.pin want) roots

  unfoldable pub keeps_pin : Text → Option Text → Bool
  unfolding text_eq
  keeps_pin ca none = false
  keeps_pin ca (some want) = has_pin (m.parse_bundle ca) want

  -- keeps
  unfoldable pub keeps : Text → Text → Bool
  unfolding keeps_pin
  keeps ca pin = keeps_pin ca (m.parse_pin pin)

  -- offerInstall
  unfoldable pub offer_install : Text → Bool
  unfolding ask
  offer_install ca = m.terminal && ask m.case_tables m.install_line true && m.installs ca

  abbrev pub saved_run : State → Disk × Option Failure → TrustRun
  saved_run s (d, none) = kept s d
  saved_run s (d, some e) = trust_stop (not_saved e) s d

  -- keepCA behind its first save
  unfoldable pub reconnect : Text → State → Disk × Option Failure → TrustRun
  unfolding offer_install save
  reconnect ca s (d, some e) = trust_stop (not_saved e) s d
  reconnect ca s (d, none) =
      if not (m.dials ca)
      then trust_stop dial_failed s d
      else if not (m.system_trusts s.api_url) && offer_install ca
      then (let s' : State = record s { config = record s.config { api_ca_installed = true } } in
          saved_run s' (save m.config_ok m.cache_ok s' d))
      else kept s d

  unfoldable pub keep_fetched : Option Text → State → Disk → TrustRun
  unfolding reconnect save
  keep_fetched none s d = trust_stop pin_not_matched s d
  keep_fetched (some ca) s d =
      let s' : State = record s { config = record s.config { api_ca = ca } } in
      reconnect ca s' (save m.config_ok m.cache_ok s' d)

  -- keepCA
  unfoldable pub keep_ca : Text → State → Disk → TrustRun
  unfolding keep_fetched
  keep_ca pin s d = keep_fetched (m.bootstrap s.api_url pin) s d

  -- pinServer
  unfoldable pub pin_server : State → Disk → TrustRun
  unfolding keeps keep_ca
  pin_server s d = if is_empty s.pin || keeps s.api_ca s.pin then kept s d else keep_ca s.pin s d

  abbrev pub or_else : Option TrustError → TrustRun → (TrustError → TrustRun) → TrustRun
  or_else none r next = r
  or_else (some x) r next = next x

  -- The loop over the advertised certificates: the first that is kept ends it, and without one it
  -- returns the last error, here `e`.
  unfoldable pub keep_any : List Root → Option TrustError → State → Disk → TrustRun
  unfolding keep_ca
  keep_any [] e s d = record { state = s; disk = d; error = e }
  keep_any (c ∷ cs) e s d =
      let r = keep_ca c.pin s d in or_else r.error r (λ x. keep_any cs (some x) r.state r.disk)

  unfoldable pub confirm_advertised : Advertised → State → Disk → TrustRun
  unfolding ask keep_any
  confirm_advertised no_ca s d = trust_stop no_ca_named s d
  confirm_advertised unreachable s d = trust_stop not_advertised s d
  confirm_advertised (advertised roots) s d =
      if not (ask m.case_tables m.trust_line false)
      then trust_stop declined s d
      else keep_any roots none s d

  -- confirmServer
  unfoldable pub confirm_server : Bool → State → Disk → TrustRun
  unfolding confirm_advertised
  confirm_server interactive s d =
      if not interactive || not m.terminal
      then trust_stop not_trusted s d
      else confirm_advertised (m.advertised_by s.api_url) s d

  -- The name as confirmServer prints it.
  unfoldable pub shown_name : Root → Text
  unfolding is_control
  shown_name r = keep (λ c. not (is_control c)) r.common_name

  -- OfferRemoval: whether the CA is taken out of the system's trust store.
  unfoldable pub offer_removal : State → Bool
  unfolding ask
  offer_removal s =
      s.api_ca_installed
      && m.terminal
      && ask m.case_tables m.remove_line false
      && m.uninstalls s.api_ca
