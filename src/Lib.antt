-- ===== src/Lib.antt =====
-- A model of pyomb, a Modbus library in Python, and the theorems that make its codecs, its transports
-- and its simulators correct.
--
-- The library has four layers under src/pyomb. A PDU (pdu/) is a function code with fields, one class
-- for each code and direction; ModbusPduParser keeps a registry of the classes and parses a byte string
-- with the class of its first byte. An ADU (adu/) is a PDU with what the line puts around it: a slave
-- id and a CRC-16 (rtu.py), or an MBAP header (tcp.py). A transport (transport/) moves ADUs; the
-- splitter of transport/rtu.py cuts RTU frames out of a stream of bytes by computing each frame's size
-- from its content and testing its checksum, and the TCP stream of transport/stream.py reads as many
-- bytes as the MBAP header says, however they arrive. The simulators (simulators/) are a client that
-- matches each response to its request by transaction identifier, and a server that answers requests.
--
-- The files:
-- - Prelude, with Tests, Lists, Int and Bits: Boolean tests, lists measured by native numbers,
--   integers, and the digits of exclusive or.
-- - Errors: the exceptions of errors.py, with struct's and the containers' own, as one data type, a
--   result type, and the three kinds of except clause. Messages are not modelled.
-- - Io: calls that change a state and may raise, the state kept either way.
-- - Struct: Python's struct.pack, struct.unpack and struct.calcsize for the formats that the library
--   uses, unsigned bytes and big-endian words, as documented. Struct.Laws: lemmas on these.
-- - Pdu.Common, Pdu.Generic, Pdu.Error: pdu/common.py, the findings, ModbusPdu and ModbusError.
-- - Pdu.Bits, Pdu.Registers, Pdu.Diagnostics, Pdu.Encapsulated: one module for each class of
--   pdu/bits.py, registers.py, diagnostics.py and encapsulated.py. In each, serialize and deserialize
--   are the methods, of_values is the unpacking of struct's tuple, len is __len__, violations is the
--   method or the LIMITS. Pdu.Codec: what the classes share, as records of laws that each fills.
-- - Pdu.Packet: the classes as one type, a method call being a dispatch on it. Pdu.Classes: the classes
--   as values, with their class attributes and class methods. Pdu.Parser: ModbusPduParser; the
--   registry, class state in Python, is passed and returned.
-- - Pdu.RoundTrip, Registry, Dispatch, Lossless, Default, Sizes, Positive: theorems on these.
-- - Adu.Crc: calc_crc16 and validate_crc of adu/rtu.py. Adu.Rtu: its three frame classes as one record,
--   with the parser as an argument; serialize returns the packet with the checksum that it stores.
-- - Adu.Header, Adu.Tcp: adu/tcp.py.
-- - Transport.Rtu: _pdu_class and read_rtu_frame of transport/rtu.py. Transport.Splitter:
--   ModbusRtuSplitter, its buffer and its count as a record that each operation returns.
-- - Transport.Fragmenter: ModbusFragmenter of transport/stream.py; its loop has the PDU's length as fuel.
-- - Transport.Socket: what the library uses of Python's socket, as a value: the bytes that have arrived,
--   in the parts in which they did, with the calls that fail, and what each send takes.
-- - Transport.TcpStream: ModbusTcpStream. Contract says what receive promises of the bytes held, with no
--   word on arrivals; Reads, Declared and Refines show that the code keeps it, Delivery what that gives
--   for a frame, Sends what send does. Transport.Buffered: ModbusTcpSender and ModbusTcpReceiver.
-- - Transport.Port: what the library uses of a serial port, as a value: what each read finds, bytes, a
--   timeout or an error. Transport.RtuStream: ModbusRtuStream; Fuel, Prefixes, Verified, Clean and Sends
--   are theorems on it.
-- - Transport.SslContext: the attributes of ssl.SSLContext and their setters, as documented. Transport.Tls:
--   transport/tls.py, an unset field being `none`. Building: which context the settings give, and when.
--   Relaxations: what relaxations names of it.
-- - Simulators.Factory: RequestFactory of simulators/client.py and the choice of a PDU. Simulators.Client:
--   ModbusClientSimulator. Simulators.Responses: ResponseFactory of simulators/server.py and the choice of
--   a response. Simulators.Server: on_data and answer. Simulators.Exchange: the two together.
-- - Simulators.Connections: the server's lists of connections, under _accept, forget, _serve,
--   _sweep_inactive, accept and reset. Steps: the passes of its loop as a relation. Registers, Sweep:
--   theorems on them.
-- - Examples: test data, and the theorems at it.
--
-- Choices of the model. Field values are numbers that are not negative: struct refuses a negative
-- integer as it refuses one that is too large. The function code of an exception response is an
-- integer, since ModbusError.deserialize subtracts the error mask. The attribute fc, which __init__
-- sets, is fixed by the class. A byte is a number, and IsByte says that it is less than 256 where a
-- theorem needs it. The loops of the splitter run on fuel, one more than the number of bytes held,
-- since each turn removes a byte or more. Where read_rtu_frame catches ModbusPacketError, the model
-- takes the branch on any error of expected_size or of the generic packet's deserialize.
-- A socket's recv gives what arrived together, at most what is asked for, and nothing after the peer
-- closed; a call of recv or send may fail with OSError. The loops that read run on fuel: the number of
-- bytes to read, or for the receiver one more than the number of bytes held. A stop event is a flag, or
-- the answers to its tests in order. The RTU stream's receive runs on twice the bytes to arrive, the bytes
-- held and one more, since a turn takes a byte off the line or out of the buffer. For
-- both loops, Fuel has a relation that takes the turns without fuel. A socket that the
-- server keeps is a number, as are an address and a time, and a new connection's number is none of those
-- that it keeps; the connection limit stays as it is between passes.
--
-- Not modelled: the setter of ModbusPdu.data, string forms, the delays, the locks and the burst mode of
-- the senders, connecting and closing, the server's thread and its listener, TLS on a connection and
-- the logger. The parser of an ADU class is an argument, so get_parser and set_parser are not modelled either.
pub mod Prelude
pub mod Errors
pub mod Io
pub mod Struct
pub mod Pdu
pub mod Adu
pub mod Transport
pub mod Simulators
pub mod Examples
