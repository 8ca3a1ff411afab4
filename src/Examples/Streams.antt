-- ===== src/Examples/Streams.antt =====
-- The theorems on the splitter, at a request that arrives in two parts behind a stray byte.
use pyomb.Errors.{ok}
use pyomb.Prelude.{List, [], ◌∷◌, ◌++◌, ◌≡◌, false, refl, All, arith}
use pyomb.Struct.{Bytes}
use pyomb.Prelude.Int.{pos}
use pyomb.Transport.Fragmenter.{fragment, assemble}
use pyomb.Transport.Fragmenter.Whole.{Small, assemble-fragment}
use pyomb.Pdu.Parser.{default_registry, get}
use pyomb.Adu.Rtu.{ModbusRtuPacket}
use pyomb.Pdu.Classes.{byte_at, expected_size, layout, layout_size}
use pyomb.Transport.Rtu.{RtuSide, read_rtu_frame, read_sized, pdu_class}
use pyomb.Transport.Splitter.{ModbusRtuSplitter, init, extend, push}
use pyomb.Transport.Splitter.Scan.{Scan, push-Scan, push-append}
use pyomb.Transport.Splitter.Accounts.{Accounted, Wires, push-Accounted}
use pyomb.Transport.Splitter.Clean.{joined, push-joined}
use pyomb.Examples.Data.{
  header_bytes, request_bytes, rtu_request, rtu_request_bytes, rtu_request_sent,
  rtu_request_written,
}

abbrev start : ModbusRtuSplitter
start = record { side = RtuSide.request; buffer = []; resyncs = 0 }

abbrev part_one : Bytes
part_one = 0xFF ∷ 0x11 ∷ 3 ∷ 0 ∷ []

abbrev part_two : Bytes
part_two = 0x6B ∷ 0 ∷ 3 ∷ 0x76 ∷ 0x87 ∷ []

push-append_example : push default_registry (part_one ++ part_two) start ≡ (
  (push default_registry part_one start).0
      ++ (push default_registry part_two (push default_registry part_one start).1).0,
  (push default_registry part_two (push default_registry part_one start).1).1,
)
push-append_example = push-append default_registry part_one part_two start

push-Scan_example :
    Scan default_registry
      (extend part_one start)
      (push default_registry part_one start).0
      (push default_registry part_one start).1
push-Scan_example = push-Scan default_registry part_one start

push-Accounted_example :
    Accounted
      (extend part_one start)
      (push default_registry part_one start).0
      (push default_registry part_one start).1
push-Accounted_example = push-Accounted default_registry part_one start tt (omega arith)

push-joined_example :
    (gs : List ModbusRtuPacket) × Wires gs (rtu_request_bytes ∷ rtu_request_bytes ∷ [])
    × (push default_registry
          (joined (rtu_request_bytes ∷ rtu_request_bytes ∷ []))
          (init RtuSide.request)
        ≡ (gs, init RtuSide.request))
push-joined_example =
    push-joined RtuSide.request (rtu_request ∷ rtu_request ∷ [])
      (rtu_request_bytes ∷ rtu_request_bytes ∷ [])
      (
        tt,
        tt,
        (rtu_request_sent, rtu_request_written),
        (tt, tt, (rtu_request_sent, rtu_request_written), tt),
      )

-- The stray byte's verdict: the registry holds no class for a function code 0x11, and the generic PDU
-- shows no size.
stray : (read_rtu_frame default_registry part_one RtuSide.request).incomplete ≡ false
unfolding read_rtu_frame read_sized pdu_class get default_registry byte_at expected_size layout
    layout_size
stray = refl

assemble-fragment_example :
    (head : Bytes) × (fs : List Bytes) × (fragment (header_bytes 6 ++ request_bytes) (pos 2)
      ≡ ok (head ∷ fs))
    × (head ≡ header_bytes 6)
    × All (Small 2) fs
    × (assemble (head ∷ fs) ≡ header_bytes 6 ++ request_bytes)
assemble-fragment_example = assemble-fragment (header_bytes 6 ++ request_bytes) 1
