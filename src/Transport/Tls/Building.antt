-- ===== src/Transport/Tls/Building.antt =====
-- context of transport/tls.py: when it gives a context, and which.
use pyomb.Prelude.{
  ◌≡◌, ◌&&◌, Bool-cases, if◌then◌else◌, inl, inr, refl, ap, ◌∙◌, Bool, true, false, Option, none,
  some, [], ◌∷◌,
}
use pyomb.Errors.{Result, ok, err, os_error, value_error, ◌>>=◌}
use pyomb.Struct.{Bytes}
use pyomb.Transport.SslContext
use pyomb.Transport.SslContext.{
  Protocol, protocol_tls, protocol_tls_client, protocol_tls_server, numbered, fresh, init,
  load_cert_chain, load_verify_locations, set_ciphers, op_all, Options, VerifyMode, cert_none,
  cert_optional, cert_required, Ssl, promoted, tlsv1_2, set_verify_mode, set_check_hostname,
  add_options, set_minimum_version,
}
use pyomb.Transport.Tls.{TlsRole, client, server, TlsSettings, resolved, context, choose_ciphers}

-- What a caller chose, or else the baseline.
abbrev pub chosen : {A : Type 0} → Option A → A → A
chosen none baseline = baseline
chosen (some value) baseline = value

abbrev pub baseline_protocol : TlsRole → Protocol
baseline_protocol client = protocol_tls_client
baseline_protocol server = protocol_tls_server

abbrev pub baseline_hostname : TlsRole → Bool
baseline_hostname client = true
baseline_hostname server = false

-- Whether ssl makes a context for a protocol, and whether one of it negotiates its version.
unfoldable pub makes : Ssl → Protocol → Bool
makes ssl protocol_tls = true
makes ssl protocol_tls_client = true
makes ssl protocol_tls_server = true
makes ssl (numbered n) = ssl.knows_protocol n

unfoldable pub negotiates : Protocol → Bool
negotiates protocol_tls = true
negotiates protocol_tls_client = true
negotiates protocol_tls_server = true
negotiates (numbered n) = false

-- Whether the files that the settings name can be read, and the ciphers, if any, are known.
unfoldable pub knows : Ssl → Option Bytes → Bool
knows ssl none = true
knows ssl (some suite) = ssl.knows_ciphers suite

unfoldable pub usable : Ssl → TlsSettings → Bool
unfolding knows
usable ssl s =
    ssl.reads_chain s.cert s.key
    && (ssl.reads_locations s.ca_chain && knows ssl (chosen s.ciphers none))

-- The context of these values.
abbrev pub of_values : Protocol → Option Bytes → VerifyMode → Bool → Options → SslContext.SslContext
of_values protocol suite mode check options = record {
  protocol = protocol;
  ciphers = suite;
  verify_mode = promoted check mode;
  check_hostname = check;
  options = options ∷ [];
  minimum_version = tlsv1_2;
}

-- The context of the values that the settings choose.
unfoldable pub built : TlsSettings → TlsRole → SslContext.SslContext
built s role =
    of_values (chosen s.protocol (baseline_protocol role)) (chosen s.ciphers none)
      (chosen s.verify_mode cert_required) (chosen s.verify_hostname (baseline_hostname role))
      (chosen s.options op_all)

-- What `context` does last.
complete : Bool → Options → SslContext.SslContext → Result SslContext.SslContext
complete check options c =
    set_minimum_version tlsv1_2 (add_options options (set_check_hostname check c))

suited : Option Bytes → Protocol → SslContext.SslContext
suited suite p = record {
  protocol = p;
  ciphers = suite;
  verify_mode = (fresh p).verify_mode;
  check_hostname = (fresh p).check_hostname;
  options = [];
  minimum_version = SslContext.minimum_supported;
}

-- A context that does not check names takes any policy.
set_verify_mode-unchecked :
    (mode : VerifyMode) (c : SslContext.SslContext)
    → c.check_hostname ≡ false
    → set_verify_mode mode c ≡ ok (SslContext.with_verify_mode mode c)
unfolding set_verify_mode
set_verify_mode-unchecked cert_none c h =
    ap (λ b. if b then err value_error else ok (SslContext.with_verify_mode cert_none c)) h
set_verify_mode-unchecked cert_optional c h = refl
set_verify_mode-unchecked cert_required c h = refl

-- What is left behind the ciphers.
completed :
    (suite : Option Bytes) (mode : VerifyMode) (check : Bool) (options : Options) (p : Protocol)
    → (set_verify_mode mode (set_check_hostname false (suited suite p)) >>= complete check options)
      ≡ (if negotiates p then ok (of_values p suite mode check options) else err value_error)
unfolding complete suited set_check_hostname add_options set_minimum_version negotiates
completed suite mode check options p =
    ap (λ r. r >>= complete check options)
      (set_verify_mode-unchecked mode (set_check_hostname false (suited suite p)) refl)
    ∙ by_protocol p
  where
    by_protocol :
        (p : Protocol)
        → complete check options
            (SslContext.with_verify_mode mode (set_check_hostname false (suited suite p)))
          ≡ (if negotiates p then ok (of_values p suite mode check options) else err value_error)
    by_protocol protocol_tls = refl
    by_protocol protocol_tls_client = refl
    by_protocol protocol_tls_server = refl
    by_protocol (numbered n) = refl

-- What `context` does behind the two loads, on the values chosen.
finish :
    Ssl
    → Option Bytes
    → VerifyMode
    → Bool
    → Options
    → SslContext.SslContext
    → Result SslContext.SslContext
finish ssl suite mode check options c = choose_ciphers ssl suite c >>= (λ suited.
    set_verify_mode mode (set_check_hostname false suited) >>= complete check options)

finish-fresh :
    (ssl : Ssl) (suite : Option Bytes) (mode : VerifyMode) (check : Bool) (options : Options)
    (p : Protocol)
    → finish ssl suite mode check options (fresh p) ≡ (
        if knows ssl suite
        then (if negotiates p then ok (of_values p suite mode check options) else err value_error)
        else err os_error)
unfolding finish choose_ciphers fresh suited knows SslContext.set_ciphers
finish-fresh ssl none mode check options p = completed none mode check options p
finish-fresh ssl (some suite) mode check options p = elim (Bool-cases (ssl.knows_ciphers suite)) [
  | inl known ↦ rw known (completed (some suite) mode check options p)
  | inr unknown ↦ rw unknown refl
]

init-makes :
    (ssl : Ssl) (p : Protocol)
    → init ssl p ≡ (if makes ssl p then ok (fresh p) else err value_error)
unfolding init makes
init-makes ssl protocol_tls = refl
init-makes ssl protocol_tls_client = refl
init-makes ssl protocol_tls_server = refl
init-makes ssl (numbered n) = refl

-- `context` with the protocol and the test of names that were chosen.
run : Ssl → TlsSettings → Protocol → Bool → Result SslContext.SslContext
run ssl s p check = init ssl p >>= (λ made. load_cert_chain ssl s.cert s.key made >>= (λ chained.
    load_verify_locations ssl s.ca_chain chained >>= (λ trusting.
      finish ssl (chosen s.ciphers none) (chosen s.verify_mode cert_required) check
        (chosen s.options op_all) trusting)))

run-built :
    (ssl : Ssl) (s : TlsSettings) (p : Protocol) (check : Bool)
    → run ssl s p check ≡ (
        if makes ssl p
        then (if usable ssl s
            then (if negotiates p
                then ok (
                    of_values p
                      (chosen s.ciphers none)
                      (chosen s.verify_mode cert_required)
                      check
                      (chosen s.options op_all))
                else err value_error)
            else err os_error)
        else err value_error)
unfolding run usable load_cert_chain load_verify_locations
run-built ssl s p check = elim (Bool-cases (makes ssl p)) [
  | inr unknown ↦ rw (init-makes ssl p, unknown) refl
  | inl made ↦ elim (Bool-cases (ssl.reads_chain s.cert s.key)) [
    | inr missing ↦ rw (init-makes ssl p, made, missing) refl
    | inl chain ↦ elim (Bool-cases (ssl.reads_locations s.ca_chain)) [
      | inr missing ↦ rw (init-makes ssl p, made, chain, missing) refl
      | inl locations ↦
          rw (init-makes ssl p, made, chain, locations)
            (finish-fresh ssl (chosen s.ciphers none) (chosen s.verify_mode cert_required) check
              (chosen s.options op_all) p)
    ]
  ]
]

-- `context` gives the context of the values that the settings choose, or else of the role's
-- baseline, with TLS 1.2 at least. It raises ValueError where ssl does not make a context for the
-- protocol, OSError where it does and a file cannot be read or the ciphers are not known,
-- ValueError where neither holds and the protocol is of one version, and nothing otherwise.
pub context-built :
    (ssl : Ssl) (s : TlsSettings) (role : TlsRole)
    → context ssl s role ≡ (
        if makes ssl (chosen s.protocol (baseline_protocol role))
        then (if usable ssl s
            then (if negotiates (chosen s.protocol (baseline_protocol role))
                then ok (built s role)
                else err value_error)
            else err os_error)
        else err value_error)
unfolding context resolved built run finish complete
context-built ssl s client =
    run-built ssl s (chosen s.protocol protocol_tls_client) (chosen s.verify_hostname true)
context-built ssl s server =
    run-built ssl s (chosen s.protocol protocol_tls_server) (chosen s.verify_hostname false)
