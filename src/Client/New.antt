-- ===== src/Client/New.antt =====
-- internal/client/client.go: New, and the client that nk proxy builds on first use
-- (internal/cmd/proxy.go). New begins with ssh.SetupKey, which may write the public key and remove
-- certificates, also where New fails behind it.
use nk.Base.{Bool, true, false, ◌&&◌, Option, none, some, if◌then◌else◌, [], ◌∷◌}
use nk.Base.Text.{Text, text_eq}
use nk.Ssh.Certs.{Files, cert_name}
use nk.Ssh.Keys.{KeyError, setup_key}

-- What New gets from outside: the signer's key, the host's name, whether the write of the public key
-- succeeds, which certificates can be removed, and whether the proofer and the HTTP client are built.
pub record Start : Type 0 where
  pub signer : Option Text
  pub host : Option Text
  pub key_written : Bool
  pub removable : Text → Bool
  pub built : Bool

-- The files of the machine's identity, and the success of New where it has run.
pub record Local : Type 0 where
  pub key_file : Option Text
  pub files : Files
  pub made : Option Bool

abbrev pub no_error : Option KeyError → Bool
no_error none = true
no_error (some e) = false

abbrev pub is_made : Option Bool → Bool
is_made none = false
is_made (some ok) = ok

-- New
unfoldable pub new_client : Start → Local → Local
unfolding setup_key
new_client w l =
    let k = setup_key w.removable w.signer w.host l.key_file w.key_written l.files in
    record { key_file = k.file; files = k.certificates; made = some (no_error k.error && w.built) }

-- backend, a sync.OnceValues over New: it runs once, and its result is kept.
unfoldable pub backend_of : Start → Local → Option Bool → Local
unfolding new_client
backend_of w l (some ok) = l
backend_of w l none = new_client w l

unfoldable pub backend : Start → Local → Local
unfolding backend_of
backend w l = backend_of w l l.made

-- os.ReadFile of paths.SSHCertificate
unfoldable pub cert_at : Text → Files → Option Text
unfolding text_eq cert_name
cert_at id [] = none
cert_at id ((name, body) ∷ fs) =
    let rest = cert_at id fs in if text_eq name (cert_name id) then some body else rest
