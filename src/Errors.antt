-- ===== src/Errors.antt =====
-- errors.py and defines.py: the exceptions as values, and what an `except` clause does with them.
-- An exception's message is not modelled; which class it has is what a caller can catch.
use pyomb.Prelude.{ℕ, ◌≡◌, refl, ap, ◌⊎◌, inl, inr, arith}

-- The fields of an MBAP header (adu/tcp.py), which a parse error carries.
pub record ModbusHeader : Type 0 where
  pub trans_id : ℕ
  pub prot_id : ℕ
  pub length : ℕ
  pub unit_id : ℕ

-- `struct_error`, `key_error`, `index_error`, `value_error` and `os_error` are Python's own; the others are the
-- library's. `protocol_error` carries the exception code of its ten subclasses.
pub data Error : Type 0 where
  struct_error key_error index_error value_error os_error : Error
  protocol_error : ℕ → Error
  network_error timeout_error packet_error mode_error : Error
  pdu_parse_error : ModbusHeader → ℕ → Error

pub data Result {ℓ} (A : Type ℓ) : Type ℓ where
  ok : A → Result A
  err : Error → Result A

-- The statements after one that may raise: they run on its value, or are skipped.
abbrev pub ◌>>=◌ {ℓ κ} : {X : Type ℓ} {Y : Type κ} → Result X → (X → Result Y) → Result Y
ok x >>= next = next x
err raised >>= next = err raised

infixl 5 ◌>>=◌
-- A call made for its effect alone.
abbrev pub ◌>>◌ {ℓ} : {Y : Type ℓ} → Result (Unit {0}) → Result Y → Result Y
check >> next = check >>= λ done. next

infixl 5 ◌>>◌
-- `except struct.error as e: raise ModbusPacketError(...) from e`
abbrev pub catch_struct {ℓ} : {A : Type ℓ} → Result A → Result A
catch_struct (ok a) = ok a
catch_struct (err struct_error) = err packet_error
catch_struct (err e) = err e

-- `except ModbusPacketError as e: raise ModbusPacketError(...) from e`; the parse error is a subclass.
abbrev pub catch_packet {ℓ} : {A : Type ℓ} → Result A → Result A
catch_packet (ok a) = ok a
catch_packet (err (pdu_parse_error h fc)) = err packet_error
catch_packet (err e) = err e

-- `except (ModbusPacketError, struct.error) as e: raise ModbusPacketError(...) from e`
abbrev pub catch_both {ℓ} : {A : Type ℓ} → Result A → Result A
catch_both r = catch_packet (catch_struct r)

-- Inversion of a successful bind, and of a successful block under an `except`.
pub >>=-eq-ok {ℓ κ} :
    {X : Type ℓ} {Y : Type κ} (m : Result X) (next : X → Result Y) {y : Y}
    → (m >>= next) ≡ ok y
    → (x : X) × (m ≡ ok x) × (next x ≡ ok y)
>>=-eq-ok (err raised) next e = cc
>>=-eq-ok (ok x) next e = (x, refl, e)

pub >>=-eq-err {ℓ κ} :
    {A : Type ℓ} {B : Type κ} (m : Result A) (f : A → Result B) {e : Error}
    → (m >>= f) ≡ err e
    → (m ≡ err e) ⊎ ((a : A) × (m ≡ ok a) × (f a ≡ err e))
>>=-eq-err (ok a) f h = inr (a, refl, h)
>>=-eq-err (err x) f h = inl (let same : x ≡ _ = ground arith in ap (λ y. err y) same)

pub catch_struct-eq-ok {ℓ} : {A : Type ℓ} (m : Result A) {a : A} → catch_struct m ≡ ok a → m ≡ ok a
catch_struct-eq-ok (ok a) h = h
catch_struct-eq-ok (err struct_error) h = cc
catch_struct-eq-ok (err _) h = cc

pub catch_packet-eq-ok {ℓ} : {A : Type ℓ} (m : Result A) {a : A} → catch_packet m ≡ ok a → m ≡ ok a
catch_packet-eq-ok (ok a) h = h
catch_packet-eq-ok (err (pdu_parse_error x y)) h = cc
catch_packet-eq-ok (err _) h = cc
