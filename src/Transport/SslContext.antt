-- ===== src/Transport/SslContext.antt =====
-- What transport/tls.py relies on of Python's ssl.SSLContext: its attributes, and what their setters do.
-- A call that reads a file or a cipher string raises OSError, of which SSLError is a subclass, as the
-- tests of an `Ssl` say.
use pyomb.Prelude.{ℕ, Bool, true, false, Option, none, some, List, [], ◌∷◌, ◌++◌, if◌then◌else◌}
use pyomb.Errors.{Result, ok, err, value_error, os_error}
use pyomb.Struct.{Bytes}

-- The protocols that negotiate a version, for which minimum_version can be set, and any other integer:
-- a constant of one version, or none of ssl's.
pub data Protocol : Type 0 where
  protocol_tls protocol_tls_client protocol_tls_server : Protocol
  numbered : ℕ → Protocol

pub data VerifyMode : Type 0 where
  cert_none cert_optional cert_required : VerifyMode

-- Flags: the ones of ssl.OP_ALL, or a number.
pub data Options : Type 0 where
  op_all : Options
  flags : ℕ → Options

pub data TlsVersion : Type 0 where
  minimum_supported tlsv1_2 : TlsVersion

-- Which other protocols a context can be made for, and which files and cipher strings can be used.
pub record Ssl : Type 0 where
  pub knows_protocol : ℕ → Bool
  pub reads_chain : Bytes → Bytes → Bool
  pub reads_locations : Bytes → Bool
  pub knows_ciphers : Bytes → Bool

-- The attributes; the flags are those OR-ed in, and no ciphers are the default suite.
pub record SslContext : Type 0 where
  pub protocol : Protocol
  pub ciphers : Option Bytes
  pub verify_mode : VerifyMode
  pub check_hostname : Bool
  pub options : List Options
  pub minimum_version : TlsVersion

-- What a context of a protocol starts with: for clients it checks the peer and its name.
unfoldable pub fresh : Protocol → SslContext
fresh protocol =
    let client : Bool = elim protocol [
      | protocol_tls ↦ false
      | protocol_tls_client ↦ true
      | protocol_tls_server ↦ false
      | numbered n ↦ false
    ] in
    record {
      protocol = protocol;
      ciphers = none;
      verify_mode = if client then cert_required else cert_none;
      check_hostname = client;
      options = [];
      minimum_version = minimum_supported;
    }

-- `SSLContext(protocol)`
unfoldable pub init : Ssl → Protocol → Result SslContext
unfolding fresh
init ssl (numbered n) = if ssl.knows_protocol n then ok (fresh (numbered n)) else err value_error
init ssl protocol = ok (fresh protocol)

-- `load_cert_chain` and `load_verify_locations`, whose files no attribute shows.
unfoldable pub load_cert_chain : Ssl → Bytes → Bytes → SslContext → Result SslContext
load_cert_chain ssl cert key c = if ssl.reads_chain cert key then ok c else err os_error

unfoldable pub load_verify_locations : Ssl → Bytes → SslContext → Result SslContext
load_verify_locations ssl ca_chain c = if ssl.reads_locations ca_chain then ok c else err os_error

unfoldable pub set_ciphers : Ssl → Bytes → SslContext → Result SslContext
set_ciphers ssl suite c =
    if ssl.knows_ciphers suite
    then ok (record {
      protocol = c.protocol;
      ciphers = some suite;
      verify_mode = c.verify_mode;
      check_hostname = c.check_hostname;
      options = c.options;
      minimum_version = c.minimum_version;
    })
    else err os_error

abbrev pub with_verify_mode : VerifyMode → SslContext → SslContext
with_verify_mode mode c = record {
  protocol = c.protocol;
  ciphers = c.ciphers;
  verify_mode = mode;
  check_hostname = c.check_hostname;
  options = c.options;
  minimum_version = c.minimum_version;
}

-- A context that checks names refuses to stop checking certificates,
unfoldable pub set_verify_mode : VerifyMode → SslContext → Result SslContext
set_verify_mode cert_none c =
    if c.check_hostname then err value_error else ok (with_verify_mode cert_none c)
set_verify_mode cert_optional c = ok (with_verify_mode cert_optional c)
set_verify_mode cert_required c = ok (with_verify_mode cert_required c)

-- and one that begins to check names checks certificates too.
abbrev pub promoted : Bool → VerifyMode → VerifyMode
promoted true cert_none = cert_required
promoted true cert_optional = cert_optional
promoted true cert_required = cert_required
promoted false mode = mode

unfoldable pub set_check_hostname : Bool → SslContext → SslContext
set_check_hostname check c = record {
  protocol = c.protocol;
  ciphers = c.ciphers;
  verify_mode = promoted check c.verify_mode;
  check_hostname = check;
  options = c.options;
  minimum_version = c.minimum_version;
}

unfoldable pub add_options : Options → SslContext → SslContext
add_options more c = record {
  protocol = c.protocol;
  ciphers = c.ciphers;
  verify_mode = c.verify_mode;
  check_hostname = c.check_hostname;
  options = c.options ++ (more ∷ []);
  minimum_version = c.minimum_version;
}

abbrev pub with_minimum_version : TlsVersion → SslContext → SslContext
with_minimum_version version c = record {
  protocol = c.protocol;
  ciphers = c.ciphers;
  verify_mode = c.verify_mode;
  check_hostname = c.check_hostname;
  options = c.options;
  minimum_version = version;
}

-- A context of one version has no other to set.
unfoldable pub set_minimum_version : TlsVersion → SslContext → Result SslContext
set_minimum_version version c = elim c.protocol [
  | protocol_tls ↦ ok (with_minimum_version version c)
  | protocol_tls_client ↦ ok (with_minimum_version version c)
  | protocol_tls_server ↦ ok (with_minimum_version version c)
  | numbered n ↦ err value_error
]
