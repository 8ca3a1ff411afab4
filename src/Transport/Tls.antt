-- ===== src/Transport/Tls.antt =====
-- transport/tls.py: TlsSettings. A field that a caller left unset is `none`.
pub mod Building
pub mod Relaxations
use pyomb.Prelude.{
  ℕ, Bool, true, false, not, ◌&&◌, Option, none, some, List, [], ◌∷◌, ◌++◌, if◌then◌else◌,
}
use pyomb.Errors.{Result, ok, err, ◌>>=◌}
use pyomb.Struct.{Bytes}
use pyomb.Transport.SslContext
use pyomb.Transport.SslContext.{
  Protocol, protocol_tls_client, protocol_tls_server, VerifyMode, cert_none, cert_optional,
  cert_required, Options, op_all, tlsv1_2, Ssl, set_verify_mode, set_check_hostname, add_options,
  set_minimum_version,
}

-- `_resolved`
unfoldable pub resolved : {A : Type 0} → Option A → A → A
resolved none fallback = fallback
resolved (some chosen) fallback = chosen

pub data TlsRole : Type 0 where
  client server : TlsRole

pub record RoleDefaults : Type 0 where
  pub protocol : Protocol
  pub verify_hostname : Bool

abbrev pub role_defaults : TlsRole → RoleDefaults
role_defaults client = record { protocol = protocol_tls_client; verify_hostname = true }
role_defaults server = record { protocol = protocol_tls_server; verify_hostname = false }

pub record TlsSettings : Type 0 where
  pub cert : Bytes
  pub key : Bytes
  pub ca_chain : Bytes
  pub protocol : Option Protocol
  pub ciphers : Option (Option Bytes)
  pub verify_mode : Option VerifyMode
  pub verify_hostname : Option Bool
  pub options : Option Options

-- `if ciphers is not None`
unfoldable pub choose_ciphers :
    Ssl → Option Bytes → SslContext.SslContext → Result SslContext.SslContext
choose_ciphers ssl none c = ok c
choose_ciphers ssl (some suite) c = SslContext.set_ciphers ssl suite c

unfoldable pub context : Ssl → TlsSettings → TlsRole → Result SslContext.SslContext
unfolding resolved choose_ciphers
context ssl s role = do
  let defaults = role_defaults role
  made ← SslContext.init ssl (resolved s.protocol defaults.protocol)
  chained ← SslContext.load_cert_chain ssl s.cert s.key made
  trusting ← SslContext.load_verify_locations ssl s.ca_chain chained
  suited ← choose_ciphers ssl (resolved s.ciphers none) trusting
  verifying ←
      set_verify_mode (resolved s.verify_mode cert_required) (set_check_hostname false suited)
  let checking = set_check_hostname (resolved s.verify_hostname defaults.verify_hostname) verifying
  set_minimum_version tlsv1_2 (add_options (resolved s.options op_all) checking)

-- The phrases of `relaxations`.
pub data Relaxation : Type 0 where
  custom_ciphers : Bytes → Relaxation
  certificate_policy : VerifyMode → Relaxation
  hostname_off : Relaxation

unfoldable pub ciphers_weakened : Option Bytes → List Relaxation
ciphers_weakened none = []
ciphers_weakened (some suite) = custom_ciphers suite ∷ []

unfoldable pub mode_weakened : VerifyMode → List Relaxation
mode_weakened cert_none = certificate_policy cert_none ∷ []
mode_weakened cert_optional = certificate_policy cert_optional ∷ []
mode_weakened cert_required = []

unfoldable pub hostname_weakened : Bool → Bool → List Relaxation
hostname_weakened baseline check = if baseline && not check then hostname_off ∷ [] else []

unfoldable pub relaxations : TlsSettings → TlsRole → List Relaxation
unfolding resolved ciphers_weakened mode_weakened hostname_weakened
relaxations s role =
    let defaults = role_defaults role in
    ciphers_weakened (resolved s.ciphers none)
    ++ mode_weakened (resolved s.verify_mode cert_required)
    ++ hostname_weakened defaults.verify_hostname
        (resolved s.verify_hostname defaults.verify_hostname)
