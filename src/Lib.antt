-- ===== src/Lib.antt =====
-- SVDC: a substation sampled-value data concentrator in Rust. A publisher emits IEC 61850-9-2 LE
-- frames; the daemon receives them, aligns them to ticks, keeps the ticks in a bounded buffer and hands
-- them to subscribers (historian, console, OPC UA server). This library models the path of a sample from
-- the frame on the wire to a subscriber, to the historian's file and to the variables of the OPC UA server,
-- and what the operator console keeps: registry, calibrations, audit log and their files.
--
-- The parts, in the order in which a sample meets them, and the files that model them:
-- - Wire: crates/ssiec-sv-publisher/src/lib.rs (with `VlanTag` of vendor.rs and the UDP payload of
--   main.rs). Wire/Frame has the data, `pack` and `unpack`; Wire/Encode has `Cursor`, the BER writers
--   and `encode_frame`; Wire/Decode has `Reader`, `decode_int` and both decoders; Wire/Utf8 has
--   `String::from_utf8_lossy`. An action of the encoder returns its outcome and the cursor, so that the
--   buffer after a failure is modelled too. Wire/Encode/Writes and Wire/Decode/Reads say what the pieces
--   append and take off, Wire/Encode/Layout the whole frame, Wire/RoundTrip the two together;
--   Wire/Encode/Safe, Wire/Decode/Safe and Wire/Decode/Valid are about inputs of any kind.
-- - Ingress: crates/svdc-ingress. Ingress/Decoder lifts decoded frames, Ingress/Ring is the queue
--   between the two threads, Ingress/Loopback the test subscriber.
-- - Align: crates/svdc-aligner. Align is binner, aligner and `process_frame`; Align/Buffer the tick
--   buffer. Align/Ticks, Align/Buffer/Window and Align/Buffer/Sweep are about them.
-- - Core: crates/svdc-core. Core/Crc is the bit-at-a-time CRC-32, Core/Tick the tick record with its
--   flags and its integrity check.
-- - Daemon: the two threads of `spawn_udp_ingress` in crates/svdc-bin/src/main.rs. Every shared object
--   is behind one lock per call, so a run is a sequence of the threads' steps (Daemon/Stream); Daemon/Flow
--   is the queue that it is held against. Observe
--   is the table of merging units of crates/svdc-console/src/dataplane/mod.rs that they fill.
--   Observe/Table and Observe/Run are about it.
-- - Cli: `resolve_config` of crates/svdc-bin/src/main.rs. Cli has the loop over the arguments, Cli/Settle
--   the environment, the defaults and the guard; Cli/Total is about every command line, Cli/Guard about
--   the bind address of the OPC UA server. The environment is a function from names, and the standard
--   library's parser of socket addresses is a parameter.
-- - Subscribe: crates/svdc-subscribe. Subscribe/Sorted, Subscribe/Delivery, Subscribe/Reread and
--   Subscribe/Stall follow `read_since` over a buffer that is still being filled.
-- - Historian: crates/svdc-historian, over a subscription (Historian/Rows and Historian/Lost). The file is
--   the bytes that its buffered writer has taken, and each row or header may stop at any byte with an error.
-- - Dataplane: the control state of `DataPipeline` in crates/svdc-console/src/dataplane/mod.rs, with the
--   sweep, the reset and the deliberate tampering of a record (Dataplane/Tamper). Dataplane/Snapshot is the
--   status that the console polls, Dataplane/Loop the background task `run_pipeline`: the waveform is a
--   function of the sample count, and a run is the list of what its rounds read from the clocks and
--   the vendor selector. Dataplane/Routes has the handlers of
--   crates/svdc-console/src/routes/dataplane.rs. Dataplane/EndToEnd follows a run into the historian's file.
-- - Audit: `AuditLog` of crates/svdc-console/src/audit/mod.rs. Audit has the ring (Audit/Sequence),
--   Audit/Journal the file with its lines: JSON is two functions, from a record to its line and back.
--   Audit/Restart and Audit/Torn follow the file from one daemon to the next.
-- - Scd: the merging units and their registry, crates/svdc-console/src/scd. Scd/Parse is `parse_scd` over
--   the tree that the XML library returns (Scd/Xml), Scd/Numbers the numbers in its attributes; Scd/Valid
--   is about its result.
-- - Operational: crates/svdc-console/src/operational/mod.rs. Operational has the calibrations, and
--   Operational/Persist the file: the disk is the list of its files, with flags that make reading, writing
--   and renaming fail, and the TOML library is two functions. Operational/Order, Operational/Finite,
--   Operational/Saved, Operational/Durable and Operational/Refused are about it.
-- - Calibrate: crates/svdc-console/src/routes/calibration.rs over registry, operational state and audit
--   log (Calibrate/Trail; Audit/Newest is about the record that the log shows first).
-- - Config: crates/svdc-console/src/routes/config.rs, the routes that change the registry. What the
--   multipart reader returns is an argument. A registration is the two steps that its two locks make
--   of it (`prepare` and `commit`), which Config/Race interleaves; Config/Manual is about the unit that it
--   describes, Config/Held about every route.
-- - Vendor: the presets of crates/ssiec-sv-publisher/src/vendor.rs with `FrameParams::from_vendor`, and
--   vendor_loader.rs (Vendor/Icd) over the same tree of an XML document. Vendor/Valid,
--   Vendor/Sends and Vendor/Reported are about the profile that the loader returns, Vendor/Lookup about
--   the presets.
-- - Pcap: pcap_writer.rs of the publisher with the loop of `run_pcap` and `resolve_frame_identity` of its
--   main.rs (Pcap/Identity). The file has room for a number of bytes, and the waveform's samples are an
--   argument. Pcap/Reader reads a file by the layout of the format, Pcap/ReadBack is about what it finds.
--   Pcap/Options is `parse_stream_opts`, over the standard library's parsers of floats (Pcap/Accepted).
-- - OpcUa: quality.rs and timestamp.rs of crates/svdc-opcua. AddressSpace: its address_space.rs
--   (AddressSpace/Tree). Server: the publisher of its server.rs, with the variables registered and
--   the updates pushed (Server/Updates).
-- - Northbound: the two northbound tasks of crates/svdc-bin/src/main.rs (Northbound/Tasks), the L0 demo
--   subscriber and the bridge to the OPC UA server, a round of each being one pass of its loop:
--   Northbound/Drained and Northbound/Bridged. Northbound itself is what the pages of
--   crates/svdc-console/src/routes/northbound.rs show of them (Northbound/Pages).
-- - Civil: the times that crates/svdc-console/src/routes/mus_list.rs (`format_ms`) and
--   crates/svdc-console/src/sse/emitter.rs (`iso8601_from_unix_ms`) print, against the calendar
--   (Civil/Calendar).
-- - Base: what the parts share: lists measured by native numbers, words and byte orders, bit
--   operations, outcomes with `ok`, `err` and `panic`.
--
-- Numbers. An unsigned integer is a natural number with its range in a predicate (IsU8 to IsU64) and its
-- wrap-around written out; an `i32` is its two's-complement pattern below 2 ^ 32. A string is its bytes.
-- A fixed array is a list with its length in a predicate. An index or a slice out of range, and a
-- subtraction below zero, is the outcome `panic`; where a plain subtraction stands (Civil), the values keep
-- it from going below zero. `usize` additions on positions in a buffer do not
-- wrap, since a buffer is shorter than 2 ^ 63 bytes. A float is its
-- bit pattern. Every loop is over a list or a count, except that over the arguments of the command line,
-- which moves an index: its fuel is the number of arguments, one for each round.
--
-- The clock and the datagrams are arguments of the steps that read them. Not modelled: sockets, threads
-- and files themselves, the waveform and calibration code on floats, the HTML of the web console, the
-- REST API and the OPC UA server's own start-up, which are calls of their libraries.
pub mod Base
pub mod Core
pub mod Wire
pub mod Ingress
pub mod Align
pub mod Subscribe
pub mod Observe
pub mod Daemon
pub mod Cli
pub mod Dataplane
pub mod Audit
pub mod Scd
pub mod Operational
pub mod Calibrate
pub mod Config
pub mod Vendor
pub mod Pcap
pub mod Historian
pub mod OpcUa
pub mod AddressSpace
pub mod Server
pub mod Northbound
pub mod Civil
