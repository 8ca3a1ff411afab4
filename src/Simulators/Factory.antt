-- ===== src/Simulators/Factory.antt =====
-- simulators/client.py, class RequestFactory and the choice of the PDU in `send_request`.
use pyomb.Prelude.{ℕ, ◌+◌, ◌*◌, ◌/◌, List, [], ◌∷◌, length, take, ltb, ◌==◌, if◌then◌else◌}
use pyomb.Errors.{Result, ok, err, index_error, protocol_error, ◌>>=◌}
use pyomb.Pdu.Packet.{Packet}

abbrev pub create_fc1_req : ℕ → ℕ → Packet
create_fc1_req read_address read_count =
    Packet.request_fc1 (record { start_addr = read_address; quantity = read_count })

abbrev pub create_fc2_req : ℕ → ℕ → Packet
create_fc2_req read_address read_count =
    Packet.request_fc2 (record { start_addr = read_address; quantity = read_count })

abbrev pub create_fc3_req : ℕ → ℕ → Packet
create_fc3_req read_address read_count =
    Packet.request_fc3 (record { start_addr = read_address; quantity = read_count })

abbrev pub create_fc4_req : ℕ → ℕ → Packet
create_fc4_req read_address read_count =
    Packet.request_fc4 (record { start_addr = read_address; quantity = read_count })

abbrev pub create_fc5_req : ℕ → ℕ → Packet
create_fc5_req write_address value =
    Packet.request_fc5 (record { output_address = write_address; output_value = value })

abbrev pub create_fc6_req : ℕ → ℕ → Packet
create_fc6_req write_address value =
    Packet.request_fc6 (record { output_address = write_address; output_value = value })

abbrev pub create_fc7_req : Packet
create_fc7_req = Packet.request_fc7 (record {})

-- Eight coils to the byte, rounded up; a subscript past the values raises.
unfoldable pub create_fc15_req : ℕ → ℕ → List ℕ → Result Packet
create_fc15_req write_address write_count values =
    let byte_count = (write_count + 7) / 8 in
    if ltb (length values) byte_count
    then err index_error
    else ok (
        Packet.request_fc15 (record {
          start_addr = write_address;
          quantity = write_count;
          byte_count = byte_count;
          values = take byte_count values;
        }))

abbrev pub create_fc16_req : ℕ → ℕ → List ℕ → Packet
create_fc16_req write_address write_count values = Packet.request_fc16 (record {
  start_addr = write_address;
  quantity = write_count;
  byte_count = 2 * write_count;
  values = values;
})

abbrev pub create_fc22_req : ℕ → ℕ → ℕ → Packet
create_fc22_req write_address and_mask or_mask =
    Packet.request_fc22
      (record { ref_addr = write_address; and_mask = and_mask; or_mask = or_mask })

abbrev pub create_fc23_req : ℕ → ℕ → ℕ → ℕ → List ℕ → Packet
create_fc23_req read_addr read_count write_addr write_count write_values =
    Packet.request_fc23 (record {
      read_start_addr = read_addr;
      read_quantity = read_count;
      write_start_addr = write_addr;
      write_quantity = write_count;
      write_byte_count = 2 * write_count;
      write_values = write_values;
    })

abbrev pub create_fc43_req : ℕ → List ℕ → Packet
create_fc43_req mei_type mei_data =
    Packet.request_fc43 (record { mei_type = mei_type; mei_data = mei_data })

-- The argument `values`: a number, or an iterable.
pub data Values : Type 0 where
  one : ℕ → Values
  many : List ℕ → Values

pub record Arguments : Type 0 where
  pub fc : ℕ
  pub read_address : ℕ
  pub read_count : ℕ
  pub write_address : ℕ
  pub write_count : ℕ
  pub values : Values
  pub and_mask : ℕ
  pub or_mask : ℕ

-- The first value, for FC5 and FC6.
unfoldable pub single_value : Values → Result ℕ
single_value (one value) = ok value
single_value (many []) = err (protocol_error 3)
single_value (many (value ∷ values)) = ok value

-- A number is wrapped in a list for FC15, FC16 and FC23.
abbrev pub value_list : Values → List ℕ
value_list (one value) = value ∷ []
value_list (many values) = values

unfoldable pub create_pdu : Arguments → Result Packet
unfolding single_value create_fc15_req
create_pdu a =
    if a.fc == 1
    then ok (create_fc1_req a.read_address a.read_count)
    else if a.fc == 2
    then ok (create_fc2_req a.read_address a.read_count)
    else if a.fc == 3
    then ok (create_fc3_req a.read_address a.read_count)
    else if a.fc == 4
    then ok (create_fc4_req a.read_address a.read_count)
    else if a.fc == 5
    then (do value ← single_value a.values; ok (create_fc5_req a.write_address value))
    else if a.fc == 6
    then (do value ← single_value a.values; ok (create_fc6_req a.write_address value))
    else if a.fc == 7
    then ok create_fc7_req
    else if a.fc == 15
    then create_fc15_req a.write_address a.write_count (value_list a.values)
    else if a.fc == 16
    then ok (create_fc16_req a.write_address a.write_count (value_list a.values))
    else if a.fc == 22
    then ok (create_fc22_req a.write_address a.and_mask a.or_mask)
    else if a.fc == 23
    then ok (
        create_fc23_req a.read_address a.read_count a.write_address a.write_count
          (value_list a.values))
    else if a.fc == 43
    then ok (create_fc43_req 0x0E (1 ∷ 2 ∷ 3 ∷ 4 ∷ 5 ∷ 6 ∷ 7 ∷ 8 ∷ 9 ∷ 10 ∷ []))
    else err (protocol_error 1)
