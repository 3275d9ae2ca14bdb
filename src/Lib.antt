-- ===== src/Lib.antt =====
-- The core of the Inertial Sense SDK, which the rover's ROS driver runs on: the packets, the byte
-- order of the data sets, the communications manager, the buffers, the NMEA sentences, and
-- the firmware files.
--
-- All paths are below src/inertial_sense_ros2_V2/lib/InertialSenseSDK/src/.
--
-- A host and a device exchange binary packets. ISComm.c encodes a packet (start byte, id, counter,
-- flags, body, 24 bit checksum, end byte), in which it escapes the bytes that begin or end a message of
-- some protocol, and decodes it in place; data_sets.c swaps the bytes of a body that came
-- from a processor of the other byte order. Around that, ISComm.c keeps an instance per connection:
-- the bytes that come in are appended to its buffer, a scan finds the messages of four protocols
-- (binary packets, NMEA, ublox, RTCM3) among them, and the requests of the host are encoded.
-- com_manager.c stands on that: it keeps a table of data to be broadcast periodically, a list of packets
-- to be sent again until they are answered, and the data sets that packets may read and write.
-- ring_buffer.c holds bytes between a port and a parser; linked_list.c links nodes of any kind.
-- protocol_nmea.cpp writes and reads the NMEA sentences that the scan of ISComm.c finds, and the
-- requests that select which sentences a port streams. ihex.c reads the firmware files that the
-- bootloaders send.
--
-- Files:
-- Prelude: the shared names of the library; Prelude.Tests (Boolean tests on numbers), Prelude.Lists,
--   Prelude.Bits, Prelude.BitAt and Prelude.Word (bit operations, bytes inverted, words shifted),
--   Prelude.Int (the integers of `int` arithmetic), Prelude.Memory (byte memory by address).
-- Packet (ISComm.h): the constants and records. Packet.Encode (encodeByteAddToBuffer and
--   is_encode_binary_packet), Packet.Encode.Frame (the wire format as a list, the specification),
--   Packet.Decode (is_decode_binary_packet_footer, is_decode_binary_packet_byte and
--   is_decode_binary_packet), Packet.Swap (swapPacket).
-- Comm (ISComm.h): the instance. Comm.Checksums (calculate24BitCRCQ, getBitsAsUInt32), Comm.Packets
--   (processInertialSensePkt, processAsciiPkt, processUbloxByte, processRtcm3Byte), Comm.Parse
--   (is_comm_init, is_comm_free, is_comm_parse_timeout, is_comm_parse_byte_timeout), Comm.Send
--   (is_comm_get_data, sendData and its callers, the copies of data, validateBaudRate).
-- DataSets (data_sets.c): DataSets.Flip (flipFloat, flipDouble, flipEndianess32, flipDoubles,
--   flipStrings), DataSets.Offsets (getDoubleOffsets and getStringOffsetsLengths, with the offsets
--   of the packed structs of data_sets.h), DataSets.Checksum (checksum32), DataSets.Satellites (ubxSys,
--   satNo, satNumCalc).
-- Manager (com_manager.h): the state of a communications manager. Manager.Transmit
--   (encodeBinaryPacket, sendPacket, sendDataPacket, sendAck, and the comManagerSend functions),
--   Manager.Broadcasts (the table of broadcasts), Manager.Requests (comManagerGetDataRequestInstance,
--   comManagerRegisterInstance), Manager.Step (stepComManagerSendMessagesInstance), Manager.Retries
--   (registerPacketRetry, stepPacketRetry, updatePacketRetryData, updatePacketRetryAck,
--   comManagerSendEnsuredInstance), Manager.Receive (processBinaryRxPacket),
--   Manager.Listen (comManagerStepRxInstance as a relation, the getters and setters of the ports and
--   handlers), Manager.Setup (initComManagerInstanceInternal).
-- RingBuffer (ring_buffer.c): the ring and its operations; RingBuffer.Search the functions that
--   look for a byte or a string; RingBuffer.Contents the abstract view, a list of bytes.
-- LinkedList (linked_list.c): the pointers of the nodes; LinkedList.Nodes the abstract view, the nodes
--   in order.
-- Nmea (protocol_nmea.cpp): Nmea.Ids and Nmea.Signals (the numbers of systems and signals), Nmea.Talkers
--   (gnssId_to_talkerId, talkerId_to_gnssId), Nmea.Sentence (nmea_sprint, nmea_compute_checksum,
--   nmea_sprint_footer), Nmea.Messages (getNmeaMsgId, nmeaMsgIdToTalker), Nmea.Streams
--   (nmea_enable_stream, nmea_parse_ascb, nmea_parse_asce).
-- Hex (ihex.c): Hex.Line (parse_hex_line), Hex.Section (ihex_load_section, ihex_load_sections and the
--   unloading, on the lines that `fgets` reads of the text, cut at 511 characters).
-- Time (time_conversion.c): gpsTowMsToUtcTime.
-- Comm.Run: an instance that takes the bytes of a connection one by one.
-- The other files of a directory hold proofs, and each Tests file runs at concrete data.
--
-- State: a pointer is a number, the address in a memory that maps addresses to bytes. The encoder's
-- output is the list of the bytes written so far, its length the distance of `ptrDest` from
-- `encodedPacket`; `none` is the early `return -1`. The processor is little endian. Words are
-- numbers with their wrap-around written out (`shl32`, `not8`).
--
-- The manager's state holds that memory, and the calls of its send callback in their order, with the
-- bytes of each. The callbacks of the program that uses the manager are fields of that state, functions
-- of the memory and of what they are given; a callback does not call the manager again. The loops of the
-- receive step are relations, since the read callback chooses the bytes.
--
-- Fuel: the footer scan gets seven rounds, as no state comes twice; the decoder's loop over a body
-- gets as many rounds as there are bytes to read, each round reads at least one; the scan
-- for messages gets as many rounds as there are bytes between `scan` and `tail`; the loop of
-- `ringBufWrite` gets as many rounds as there are bytes to write.
--
-- Not modelled: callbacks that call the manager again, and the order of ASCII message ids
-- (asciiMessageCompare, findAsciiMessage) in com_manager.c; the floating point dates of
-- time_conversion.c; didToRmcBit and
-- devInfoPopulateMissingHardware of data_sets.c; the sentences of protocol_nmea.cpp with positions and
-- angles, which are floating point text; floating point code (ISMatrix.c, ISEarth.c, ISPose.c,
-- ISPolynomial.c), since the numbers here have no rounding; the serial ports (serialPort.c,
-- serialPortPlatform.c: calls of the operating system); the C++ loggers, bootloaders,
-- tools and device classes; TinyXML (a copy of another project); the ROS nodes.
pub mod Prelude
pub mod Packet
pub mod DataSets
pub mod Comm
pub mod RingBuffer
pub mod Hex
pub mod LinkedList
pub mod Manager
pub mod Nmea
pub mod Time
