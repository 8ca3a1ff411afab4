-- ===== src/Transport/Rtu.antt =====
-- transport/rtu.py: reading the frame at the head of a buffer.
pub mod Reads
pub mod Raises
use pyomb.Prelude.{
  ℕ, ◌+◌, ◌-◌, Bool, true, false, Option, none, some, [], ◌∷◌, length, take, drop, ltb, leb,
  if◌then◌else◌,
}
use pyomb.Errors.{Result, ok, err}
use pyomb.Struct.{Bytes}
use pyomb.Pdu.Classes.{PduClass, byte_at, expected_size}
use pyomb.Pdu.Parser.{Registry, get}
use pyomb.Adu.Crc.{crc_size}
use pyomb.Adu.Rtu.{ModbusRtuPacket, deserialize_packet}

-- MIN_RTU_FRAME
abbrev pub min_rtu_frame : ℕ
min_rtu_frame = 1 + 1 + crc_size

pub data RtuSide : Type 0 where
  request response : RtuSide

pub record RtuRead : Type 0 where
  pub packet : Option ModbusRtuPacket
  pub length : ℕ
  pub incomplete : Bool
  pub wanted : ℕ
  pub sizable : Bool

-- `_pdu_class`
unfoldable pub pdu_class : Registry → ℕ → RtuSide → PduClass
unfolding get
pdu_class r func_code RtuSide.request = get r func_code
pdu_class r func_code RtuSide.response =
    if leb 0x80 func_code then PduClass.error else get r (func_code + 0x8000)

abbrev pub more : ℕ → RtuRead
more wanted = record {
  packet = none;
  length = 0;
  incomplete = true;
  wanted = wanted;
  sizable = true;
}

-- The frame that ends at `end`, where the checksum and the generic packet accept it.
unfoldable pub accepted : ℕ → Result ModbusRtuPacket → RtuRead
accepted end (ok packet) = record {
  packet = some packet;
  length = end;
  incomplete = false;
  wanted = 0;
  sizable = true;
}
accepted end (err e) = record {
  packet = none;
  length = 0;
  incomplete = false;
  wanted = 0;
  sizable = true;
}

-- What the layout's verdict on the size comes to.
unfoldable pub read_sized : Result (Option ℕ) → Bytes → RtuRead
unfolding accepted
read_sized (err e) s = record {
  packet = none;
  length = 0;
  incomplete = false;
  wanted = 0;
  sizable = false;
}
read_sized (ok none) s = more 1
read_sized (ok (some size)) s =
    let end = 1 + size + crc_size in
    if ltb (length s) end
    then more (end - length s)
    else accepted end (deserialize_packet true (take end s))

-- Both `except` clauses name ModbusPacketError alone; here they are taken on any error.
unfoldable pub read_rtu_frame : Registry → Bytes → RtuSide → RtuRead
unfolding read_sized pdu_class
read_rtu_frame r s side =
    if ltb (length s) min_rtu_frame
    then more (min_rtu_frame - length s)
    else read_sized (expected_size (pdu_class r (byte_at s 1) side) (drop 1 s)) s
