-- ===== src/Pdu/Parser.antt =====
-- pdu/common.py, class ModbusPduParser. The registry is class state: it is passed to each operation
-- and returned by those that change it.
use pyomb.Prelude.{ℕ, ◌+◌, List, [], ◌∷◌, ltb, ◌==◌, if◌then◌else◌, take}
use pyomb.Errors.{Result, ok, err, key_error, index_error, catch_struct, catch_both, ◌>>=◌}
use pyomb.Struct.{Bytes, B, unpack}
use pyomb.Pdu.Error
use pyomb.Pdu.Classes.{PduClass, pdu_id, deserialize}
use pyomb.Pdu.Packet.{Packet}

abbrev pub Registry : Type 0
Registry = List (ℕ × PduClass)

-- `registry.get(key, ModbusPdu)`
unfoldable pub get : Registry → ℕ → PduClass
get [] key = PduClass.generic
get ((k, c) ∷ r) key = if k == key then c else get r key

unfoldable pub put : ℕ → PduClass → Registry → Registry
put key c [] = (key, c) ∷ []
put key c ((k, d) ∷ r) = if k == key then (key, c) ∷ r else (k, d) ∷ put key c r

unfoldable pub register : PduClass → Registry → Registry
unfolding put
register c r = put (pdu_id c) c r

unfoldable pub remove : ℕ → Registry → Result Registry
remove key [] = err key_error
remove key ((k, d) ∷ r) =
    let rest = remove key r in if k == key then ok r else (do r' ← rest; ok ((k, d) ∷ r'))

unfoldable pub unregister : PduClass → Registry → Result Registry
unfolding remove
unregister c r = remove (pdu_id c) r

unfoldable pub clear_registry : Registry → Registry
clear_registry r = []

-- `set_registry` takes the place of what was held.
unfoldable pub set_registry : Registry → Registry → Registry
set_registry registry r = registry

unfoldable pub register_all : List PduClass → Registry → Registry
unfolding register
register_all [] r = r
register_all (c ∷ cs) r = register_all cs (register c r)

-- The `register` calls at the end of the four modules, in the order in which pdu/__init__.py imports
-- them.
abbrev pub registered_classes : List PduClass
registered_classes =
    PduClass.request_fc1 ∷ PduClass.response_fc1 ∷ PduClass.request_fc2 ∷ PduClass.response_fc2
    ∷ PduClass.request_fc5 ∷ PduClass.response_fc5 ∷ PduClass.request_fc15 ∷ PduClass.response_fc15
    ∷ PduClass.request_fc7 ∷ PduClass.response_fc7 ∷ PduClass.request_fc8 ∷ PduClass.response_fc8
    ∷ PduClass.request_fc43 ∷ PduClass.response_fc43 ∷ PduClass.request_fc3 ∷ PduClass.response_fc3
    ∷ PduClass.request_fc4 ∷ PduClass.response_fc4 ∷ PduClass.request_fc6 ∷ PduClass.response_fc6
    ∷ PduClass.request_fc16 ∷ PduClass.response_fc16 ∷ PduClass.request_fc22
    ∷ PduClass.response_fc22 ∷ PduClass.request_fc23 ∷ PduClass.response_fc23 ∷ []

unfoldable pub default_registry : Registry
unfolding register_all pdu_id
default_registry = register_all registered_classes []

-- `struct.unpack(">B", stream[:1])[0]`
unfoldable pub first_code : Bytes → Result ℕ
first_code s =
    unpack (B ∷ []) (take 1 s) >>= λ values. elim values [ [] ↦ err index_error | v ∷ vs ↦ ok v ]

unfoldable pub parse_request : Registry → Bytes → Result Packet
unfolding get first_code
parse_request r s = do
  c ← catch_struct (do func_code ← first_code s; ok (get r func_code))
  deserialize c s

-- In the error branch the packet is parsed twice; the second parse is a class method of its class.
unfoldable pub parse_response : Registry → Bytes → Result Packet
unfolding get first_code
parse_response r s = do
  c ← catch_both do
    func_code ← first_code s
    if ltb func_code 0x80
        then ok (get r (func_code + 0x8000))
        else (Error.deserialize s >>= λ _. ok PduClass.error)
  deserialize c s
