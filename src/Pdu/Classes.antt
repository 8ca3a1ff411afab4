-- ===== src/Pdu/Classes.antt =====
-- The PDU classes themselves: what ModbusPduParser's registry holds, with the class attributes and
-- the class methods.
use pyomb.Prelude.{
  ℕ, zero, suc, ◌+◌, ◌-◌, Bool, true, false, Option, none, some, [], ◌∷◌, ltb, if◌then◌else◌,
  length,
}
use pyomb.Errors.{Result, ok, err, packet_error, ◌>>=◌}
use pyomb.Struct.{Bytes, Code, B, H, Format, calcsize}
use pyomb.Pdu.Generic
use pyomb.Pdu.Error
use pyomb.Pdu.Diagnostics.SubFunctions.{size_from_prefix}
use pyomb.Pdu.Packet.{Packet}
use pyomb.Pdu.Bits.RequestFc1
use pyomb.Pdu.Bits.ResponseFc1
use pyomb.Pdu.Bits.RequestFc2
use pyomb.Pdu.Bits.ResponseFc2
use pyomb.Pdu.Bits.RequestFc5
use pyomb.Pdu.Bits.ResponseFc5
use pyomb.Pdu.Bits.RequestFc15
use pyomb.Pdu.Bits.ResponseFc15
use pyomb.Pdu.Diagnostics.RequestFc7
use pyomb.Pdu.Diagnostics.ResponseFc7
use pyomb.Pdu.Diagnostics.RequestFc8
use pyomb.Pdu.Diagnostics.ResponseFc8
use pyomb.Pdu.Encapsulated.RequestFc43
use pyomb.Pdu.Encapsulated.ResponseFc43
use pyomb.Pdu.Registers.RequestFc3
use pyomb.Pdu.Registers.ResponseFc3
use pyomb.Pdu.Registers.RequestFc4
use pyomb.Pdu.Registers.ResponseFc4
use pyomb.Pdu.Registers.RequestFc6
use pyomb.Pdu.Registers.ResponseFc6
use pyomb.Pdu.Registers.RequestFc16
use pyomb.Pdu.Registers.ResponseFc16
use pyomb.Pdu.Registers.RequestFc22
use pyomb.Pdu.Registers.ResponseFc22
use pyomb.Pdu.Registers.RequestFc23
use pyomb.Pdu.Registers.ResponseFc23

pub data PduClass : Type 0 where
  generic error : PduClass
  request_fc1 : PduClass
  response_fc1 : PduClass
  request_fc2 : PduClass
  response_fc2 : PduClass
  request_fc5 : PduClass
  response_fc5 : PduClass
  request_fc15 : PduClass
  response_fc15 : PduClass
  request_fc7 : PduClass
  response_fc7 : PduClass
  request_fc8 : PduClass
  response_fc8 : PduClass
  request_fc43 : PduClass
  response_fc43 : PduClass
  request_fc3 : PduClass
  response_fc3 : PduClass
  request_fc4 : PduClass
  response_fc4 : PduClass
  request_fc6 : PduClass
  response_fc6 : PduClass
  request_fc16 : PduClass
  response_fc16 : PduClass
  request_fc22 : PduClass
  response_fc22 : PduClass
  request_fc23 : PduClass
  response_fc23 : PduClass

-- PDU_ID
unfoldable pub pdu_id : PduClass → ℕ
pdu_id generic = 0x0000
pdu_id error = Error.pdu_id
pdu_id request_fc1 = RequestFc1.pdu_id
pdu_id response_fc1 = ResponseFc1.pdu_id
pdu_id request_fc2 = RequestFc2.pdu_id
pdu_id response_fc2 = ResponseFc2.pdu_id
pdu_id request_fc5 = RequestFc5.pdu_id
pdu_id response_fc5 = ResponseFc5.pdu_id
pdu_id request_fc15 = RequestFc15.pdu_id
pdu_id response_fc15 = ResponseFc15.pdu_id
pdu_id request_fc7 = RequestFc7.pdu_id
pdu_id response_fc7 = ResponseFc7.pdu_id
pdu_id request_fc8 = RequestFc8.pdu_id
pdu_id response_fc8 = ResponseFc8.pdu_id
pdu_id request_fc43 = RequestFc43.pdu_id
pdu_id response_fc43 = ResponseFc43.pdu_id
pdu_id request_fc3 = RequestFc3.pdu_id
pdu_id response_fc3 = ResponseFc3.pdu_id
pdu_id request_fc4 = RequestFc4.pdu_id
pdu_id response_fc4 = ResponseFc4.pdu_id
pdu_id request_fc6 = RequestFc6.pdu_id
pdu_id response_fc6 = ResponseFc6.pdu_id
pdu_id request_fc16 = RequestFc16.pdu_id
pdu_id response_fc16 = ResponseFc16.pdu_id
pdu_id request_fc22 = RequestFc22.pdu_id
pdu_id response_fc22 = ResponseFc22.pdu_id
pdu_id request_fc23 = RequestFc23.pdu_id
pdu_id response_fc23 = ResponseFc23.pdu_id

-- PDU_FORMAT with the repeated code behind its head, and whether PDU_COUNT names a count field.
pub record Layout : Type 0 where
  pub head : Format
  pub tail : Option Code
  pub counted : Bool

unfoldable pub layout : PduClass → Layout
layout generic = record { head = B ∷ []; tail = some B; counted = false }
layout error = record { head = B ∷ B ∷ []; tail = none; counted = false }
layout request_fc1 = record { head = B ∷ H ∷ H ∷ []; tail = none; counted = false }
layout response_fc1 = record { head = B ∷ B ∷ []; tail = some B; counted = true }
layout request_fc2 = record { head = B ∷ H ∷ H ∷ []; tail = none; counted = false }
layout response_fc2 = record { head = B ∷ B ∷ []; tail = some B; counted = true }
layout request_fc5 = record { head = B ∷ H ∷ H ∷ []; tail = none; counted = false }
layout response_fc5 = record { head = B ∷ H ∷ H ∷ []; tail = none; counted = false }
layout request_fc15 = record { head = B ∷ H ∷ H ∷ B ∷ []; tail = some B; counted = true }
layout response_fc15 = record { head = B ∷ H ∷ H ∷ []; tail = none; counted = false }
layout request_fc7 = record { head = B ∷ []; tail = none; counted = false }
layout response_fc7 = record { head = B ∷ B ∷ []; tail = none; counted = false }
layout request_fc8 = record { head = B ∷ H ∷ []; tail = some H; counted = false }
layout response_fc8 = record { head = B ∷ H ∷ []; tail = some H; counted = false }
layout request_fc43 = record { head = B ∷ B ∷ []; tail = some B; counted = false }
layout response_fc43 = record { head = B ∷ B ∷ []; tail = some B; counted = false }
layout request_fc3 = record { head = B ∷ H ∷ H ∷ []; tail = none; counted = false }
layout response_fc3 = record { head = B ∷ B ∷ []; tail = some H; counted = true }
layout request_fc4 = record { head = B ∷ H ∷ H ∷ []; tail = none; counted = false }
layout response_fc4 = record { head = B ∷ B ∷ []; tail = some H; counted = true }
layout request_fc6 = record { head = B ∷ H ∷ H ∷ []; tail = none; counted = false }
layout response_fc6 = record { head = B ∷ H ∷ H ∷ []; tail = none; counted = false }
layout request_fc16 = record { head = B ∷ H ∷ H ∷ B ∷ []; tail = some H; counted = true }
layout response_fc16 = record { head = B ∷ H ∷ H ∷ []; tail = none; counted = false }
layout request_fc22 = record { head = B ∷ H ∷ H ∷ H ∷ []; tail = none; counted = false }
layout response_fc22 = record { head = B ∷ H ∷ H ∷ H ∷ []; tail = none; counted = false }
layout request_fc23 = record { head = B ∷ H ∷ H ∷ H ∷ H ∷ B ∷ []; tail = some H; counted = true }
layout response_fc23 = record { head = B ∷ B ∷ []; tail = some H; counted = true }

-- `prefix[i]`, for an index that the caller has tested.
unfoldable pub byte_at : Bytes → ℕ → ℕ
byte_at [] i = 0
byte_at (b ∷ s) zero = b
byte_at (b ∷ s) (suc i) = byte_at s i

unfoldable pub layout_size : Layout → Bytes → Result (Option ℕ)
unfolding byte_at
layout_size l prefix = elim l.tail [
  | none ↦ ok (some (calcsize l.head))
  | some c ↦
      if l.counted
      then (if ltb (length prefix) (calcsize l.head)
          then ok none
          else ok (some (calcsize l.head + byte_at prefix (calcsize l.head - 1))))
      else err packet_error
]

-- `expected_size`, which the two Diagnostics classes override.
unfoldable pub expected_size : PduClass → Bytes → Result (Option ℕ)
unfolding layout_size layout
expected_size request_fc8 prefix = size_from_prefix prefix
expected_size response_fc8 prefix = size_from_prefix prefix
expected_size c prefix = layout_size (layout c) prefix

abbrev pub as_packet : {A : Type 0} → (A → Packet) → Result A → Result Packet
as_packet f r = r >>= λ a. ok (f a)

unfoldable pub deserialize : PduClass → Bytes → Result Packet
deserialize generic s = as_packet Packet.generic (Generic.deserialize s)
deserialize error s = as_packet Packet.error (Error.deserialize s)
deserialize request_fc1 s = as_packet Packet.request_fc1 (RequestFc1.deserialize s)
deserialize response_fc1 s = as_packet Packet.response_fc1 (ResponseFc1.deserialize s)
deserialize request_fc2 s = as_packet Packet.request_fc2 (RequestFc2.deserialize s)
deserialize response_fc2 s = as_packet Packet.response_fc2 (ResponseFc2.deserialize s)
deserialize request_fc5 s = as_packet Packet.request_fc5 (RequestFc5.deserialize s)
deserialize response_fc5 s = as_packet Packet.response_fc5 (ResponseFc5.deserialize s)
deserialize request_fc15 s = as_packet Packet.request_fc15 (RequestFc15.deserialize s)
deserialize response_fc15 s = as_packet Packet.response_fc15 (ResponseFc15.deserialize s)
deserialize request_fc7 s = as_packet Packet.request_fc7 (RequestFc7.deserialize s)
deserialize response_fc7 s = as_packet Packet.response_fc7 (ResponseFc7.deserialize s)
deserialize request_fc8 s = as_packet Packet.request_fc8 (RequestFc8.deserialize s)
deserialize response_fc8 s = as_packet Packet.response_fc8 (ResponseFc8.deserialize s)
deserialize request_fc43 s = as_packet Packet.request_fc43 (RequestFc43.deserialize s)
deserialize response_fc43 s = as_packet Packet.response_fc43 (ResponseFc43.deserialize s)
deserialize request_fc3 s = as_packet Packet.request_fc3 (RequestFc3.deserialize s)
deserialize response_fc3 s = as_packet Packet.response_fc3 (ResponseFc3.deserialize s)
deserialize request_fc4 s = as_packet Packet.request_fc4 (RequestFc4.deserialize s)
deserialize response_fc4 s = as_packet Packet.response_fc4 (ResponseFc4.deserialize s)
deserialize request_fc6 s = as_packet Packet.request_fc6 (RequestFc6.deserialize s)
deserialize response_fc6 s = as_packet Packet.response_fc6 (ResponseFc6.deserialize s)
deserialize request_fc16 s = as_packet Packet.request_fc16 (RequestFc16.deserialize s)
deserialize response_fc16 s = as_packet Packet.response_fc16 (ResponseFc16.deserialize s)
deserialize request_fc22 s = as_packet Packet.request_fc22 (RequestFc22.deserialize s)
deserialize response_fc22 s = as_packet Packet.response_fc22 (ResponseFc22.deserialize s)
deserialize request_fc23 s = as_packet Packet.request_fc23 (RequestFc23.deserialize s)
deserialize response_fc23 s = as_packet Packet.response_fc23 (ResponseFc23.deserialize s)

-- `is_request`
unfoldable pub is_request : PduClass → Bool
unfolding pdu_id
is_request c = ltb (pdu_id c) 0x8000

-- `type(self)`
unfoldable pub class_of : Packet → PduClass
class_of (Packet.generic p) = generic
class_of (Packet.error p) = error
class_of (Packet.request_fc1 p) = request_fc1
class_of (Packet.response_fc1 p) = response_fc1
class_of (Packet.request_fc2 p) = request_fc2
class_of (Packet.response_fc2 p) = response_fc2
class_of (Packet.request_fc5 p) = request_fc5
class_of (Packet.response_fc5 p) = response_fc5
class_of (Packet.request_fc15 p) = request_fc15
class_of (Packet.response_fc15 p) = response_fc15
class_of (Packet.request_fc7 p) = request_fc7
class_of (Packet.response_fc7 p) = response_fc7
class_of (Packet.request_fc8 p) = request_fc8
class_of (Packet.response_fc8 p) = response_fc8
class_of (Packet.request_fc43 p) = request_fc43
class_of (Packet.response_fc43 p) = response_fc43
class_of (Packet.request_fc3 p) = request_fc3
class_of (Packet.response_fc3 p) = response_fc3
class_of (Packet.request_fc4 p) = request_fc4
class_of (Packet.response_fc4 p) = response_fc4
class_of (Packet.request_fc6 p) = request_fc6
class_of (Packet.response_fc6 p) = response_fc6
class_of (Packet.request_fc16 p) = request_fc16
class_of (Packet.response_fc16 p) = response_fc16
class_of (Packet.request_fc22 p) = request_fc22
class_of (Packet.response_fc22 p) = response_fc22
class_of (Packet.request_fc23 p) = request_fc23
class_of (Packet.response_fc23 p) = response_fc23
