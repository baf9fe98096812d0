-- ===== src/Lib.antt =====
-- The core of edu-glasses-host, the Python SDK of the Looktech glasses (looktech_glasses_sdk): the
-- host's side of the serial channels between a computer and the glasses.
--
-- The program. Each channel is a stream of bytes that a client object reads in pieces. An
-- incremental parser cuts the stream into messages; the client acts on them.
--   * EDU-CTRL: `encode_frame` and `FrameParser` (protocol.py) with the checksum of crc16.py. A
--     request of `GlassesClient` (client.py) waits for the frame with its sequence number, and the
--     event frames that come in between are told to the callbacks.
--   * EDU-IMG: `AirImgStreamParser` and `ImageReassembler` (protocol.py); `ImageClient`
--     (image_client.py) saves the images.
--   * EDU-AUDIO: `RecordStreamParser`, the sinks and `AudioStreamClient` (audio_client.py).
--   * OTA: `OTAPacketParser`, `OTAFirmwareImage` and `OTAClient` (ota_client.py).
--   * `GlassesSession` (session.py) holds the clients of all channels. `WifiClient` (wifi.py),
--     `CaptureClient` (capture.py) and `CatalogClient` (catalog.py) are its users: each call is a
--     capability test and a request of the session.
--
-- The files, with the code each models (all under looktech_glasses_sdk/).
--   * Base: lists by native numbers, bytes and `struct` fields, bit operations, signed fields,
--     exceptions as values (`Result`), dictionaries (`lookup`, `insert`, `remove`).
--   * Stream: the loop that the four parsers share. `Verdict` is what one pass of a loop does,
--     `scan` is the loop, `Feed.feed` a call of `feed` with the buffer kept and cut, `Parses` the
--     loop as a relation. `IsScanner` is the interface: a loop body that stops on no bytes, moves
--     forward, and does not change its mind on later bytes is a parser for which cutting the
--     stream makes no difference. Each parser fills it in its file Scanner.
--   * Crc16: crc16.py. Frame: `encode_frame`, `FrameParser`.
--   * AirImg: `AirImgStreamParser`, `parse_air_img_frame`. Reassembler: `ImageReassembler`.
--     ImageClient: image_client.py.
--   * Payload: `IntEnum` classes and `enum_name` (Codes), `HelloAck`, `DeviceInfo`, `SensorData`,
--     `version_to_string` (Reply), `caps_to_names` (Caps), `DeviceCaptureState` (Capture),
--     `parse_event` (Event).
--   * Client: `GlassesClient`: `_next_seq`, `_transact`, `poll`, `_handle_frame`, `request`,
--     `request_ok`, and the commands made of them (Commands).
--   * Audio: packages (Package), `WavOpusSink` and `RawOpusSink` (Sink), `AudioStreamClient`
--     (Recorder).
--   * Ota: packets (Packet), `OTAFirmwareImage.parse` (Image), responses (Reply), numbers and
--     blocks (Client), the transfer loop of `upgrade` on the outcomes of its attempts (Upgrade),
--     requests, polls and `send_data_block` over the transport (Link), and `upgrade` with them
--     (Link/Firmware).
--   * Session: `GlassesSession`: its state and the monad of its methods (State), `poll`, `wait`,
--     `_request` (Session), photos, recordings, `connect` and `close` (Life), `ota` (Upgrade), single
--     commands (Commands). `Triple` is a Hoare triple on methods, `Yields` what a method returns or
--     raises; `IsStable` is the interface of a condition that arrivals keep, which every wait and
--     request then keeps. Reach has the calls as a step relation.
--     Clean is the condition that the channels bring bytes, which `request` hands on to what it
--     returns.
--   * Wifi: `_Reader` and the response of `WifiClient.execute` (Reply), and `WifiClient`.
--   * Capture: `CaptureClient`. Media: `_integer` and `_media_file`. Catalog: `CatalogClient`.
--
-- How state and operations correspond. An object is a record, a method a function from the state to
-- its result and the new state; an exception is a value of an error type with a constructor for each
-- `raise`. A `bytearray` that a parser consumes with `pos` is the list of the bytes from `pos` on.
-- Numbers are the native ℕ, with masks and wrap-around as the source writes them.
--
-- Bounds and fuel. `scan` runs on the number of bytes in the buffer, which is enough because each
-- pass takes one byte at least; `drain-Parses` proves that the loop has then run to its end. `chunks`
-- runs on the length of the block, and `send_data_block-InOrder` shows that no byte is left. `read_pages`
-- runs on 2 ^ 64, since the cursor of the next page is a larger 64-bit number.
-- `upgrade` runs on a number of passes for its blocks and its rounds; where an attempt for a block is
-- allowed at all, more than the reads to come are enough, since each pass takes a read at least.
--
-- Outside the model. What is not written here is a parameter: the OPUS decoder, `zlib.crc32`, the
-- path of an unnamed photo, `bytes.decode`, `urlsplit`, `unquote` and `PurePosixPath`. Transports,
-- threads, clocks and files are given by what they exchange with the code: the bytes of each read,
-- the bytes written. The reader threads call the same `poll` in a loop. The wait of a request is the
-- list of reads that come before its deadline; a session has a list of `Arrivals`, one for each wait
-- to come, with the reads of the control channel, the photos saved, the audio frames written and the
-- loss of the transport. A loop with a deadline runs on the number of passes that end before it. Log
-- messages and the time stamp of a record request are left out; the name of an unknown value keeps
-- its number as a number. What callbacks do to a session is outside, except that an upgrade is two steps. Of
-- media.py only the checks of files are modelled: the rest is threads, sockets, HTTP and files, and
-- the JSON catalog. The discovery and the transports of the operating systems are not modelled.
pub mod Base
pub mod Session
pub mod Wifi
pub mod Capture
pub mod Media
pub mod Catalog
pub mod Stream
pub mod Crc16
pub mod Frame
pub mod Ota
pub mod AirImg
pub mod Reassembler
pub mod ImageClient
pub mod Audio
pub mod Payload
pub mod Client
