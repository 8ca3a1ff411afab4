-- ===== src/Examples/Pdus.antt =====
-- The theorems on PDUs, at the read of three holding registers.
use pyomb.Prelude.{[], ◌∷◌, ◌++◌, ◌≡◌, refl, arith, some}
use pyomb.Errors.{ok, err, packet_error}
use pyomb.Pdu.Packet
use pyomb.Pdu.Packet.{Packet}
use pyomb.Pdu.Classes.{PduClass, class_of, expected_size}
use pyomb.Pdu.Bits.ResponseFc1
use pyomb.Pdu.Parser.{default_registry}
use pyomb.Pdu.Registry.{default_registry-IsKeyed}
use pyomb.Pdu.Default.{parse_request-serialize_default, parse_response-serialize_default}
use pyomb.Pdu.Lossless.{serialize-parse_request, serialize-parse_response}
use pyomb.Pdu.Sizes.Serialized.{expected_size-serialize}
use pyomb.Examples.Data.{
  request, request_bytes, request_written, response, response_bytes, response_written,
}

serialize-parse_request_example : Packet.serialize request ≡ ok request_bytes
serialize-parse_request_example =
    serialize-parse_request default_registry request_bytes request default_registry-IsKeyed
      (omega arith) (parse_request-serialize_default request request_bytes tt request_written)

serialize-parse_response_example : Packet.serialize response ≡ ok response_bytes
serialize-parse_response_example =
    serialize-parse_response default_registry response_bytes response default_registry-IsKeyed
      (omega arith) tt
      (parse_response-serialize_default response response_bytes tt response_written)

expected_size-serialize_example :
    expected_size PduClass.response_fc3 (response_bytes ++ 1 ∷ 2 ∷ []) ≡ ok (some 8)
unfolding class_of
expected_size-serialize_example =
    expected_size-serialize response response_bytes (1 ∷ 2 ∷ []) refl response_written

serialize-refuses_coils_example :
    ResponseFc1.serialize (record { byte_count = 2; output_status = 0xCD ∷ [] }) ≡ err packet_error
serialize-refuses_coils_example =
    ResponseFc1.serialize-refuses_coils (record { byte_count = 2; output_status = 0xCD ∷ [] })
      (λ e. cc)
