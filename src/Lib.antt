-- ===== src/Lib.antt =====
-- A model of lightning-onion, the Sphinx onion packets of the Lightning Network: how a sender
-- wraps the data of up to twenty hops into one packet, how each node takes its layer off, and
-- how a node keeps a packet from being processed twice.
--
-- The parts, and the files that model them:
-- - Prelude and its modules: lists, Boolean tests, the outcomes of Go functions (Results: a
--   value, an error, a panic) and methods that change a state (Io).
-- - Bytes: `xor` of crypto.go and `rightShift` of sphinx.go, and what the code uses of Go's
--   slices and of `math/big`. Stream: readers and writers of bytes.
-- - Crypto: crypto.go up to `generateSharedSecret`. The packages that it calls are the record
--   `Primitives`, and what the theorems assume of them is the record `Laws` in Crypto/Laws: the
--   lengths of digests, encodings and key streams, that key streams are bytes, and that scalar
--   multiplication multiplies the exponent of a fixed generator.
-- - Sizes, HopData, Packet: the constants, `HopData` and `OnionPacket` of sphinx.go with their
--   Encode and Decode. Route: path.go.
-- - Secrets: `generateSharedSecrets`. Onion: `NewOnionPacket` and `generateHeaderPadding`. Its
--   lemmas follow a header through the layers: Layers and Filler on single bytes, Steps and
--   Wrapped on the rounds of the loop, Built on the whole, Tail on the way back;
--   Total takes any payment path.
-- - Process: `unwrapPacket` and `processOnionPacket`. Router: `Router` with the methods
--   `Start`, `Stop`, `ProcessOnionPacket` and `ReconstructOnionPacket`; Delivery, Journey and
--   Relay follow a packet along its route, the last of them as bytes. Transaction: `Tx`;
--   its modules Sequence, Progress and Steps put a transaction beside a router that is given the
--   same packets one by one, for OneByOne; Counts and Once are about calls of both on one log, and
--   Retry is about a transaction that is made again.
-- - ErrorOnion: `onionEncrypt`, `EncryptError` and `DecryptError` of crypto.go; Reported and Sender
--   let an error come back along the route of a packet, Total takes any message. Circuits:
--   obfuscation.go, where btcec's format of private keys is the parameter `KeyFormat`, and what
--   is assumed of it the record `KeyLaws` in Circuits/RoundTrip.
-- - Cli: the command of cmd/main.go, from its arguments and its input to its output; Hex: what it
--   uses of encoding/hex, fmt and strings.
-- - GoMap: Go's maps. Replays: replay_set.go. Batch: batch.go. ReplayLog: replaylog.go, the
--   interface as a record with a type of states, and the log in memory that implements it.
--   ReplayLog/Contract is what a client may assume of any log, for Router/Guard, and
--   ReplayLog/Promise the same log on maps that are functions.
-- - Examples: the packages in a small form, and runs at concrete inputs.
--
-- The sender calls Secrets and Onion; a router calls Process, and then its replay log, or the
-- batch of a transaction, whose Commit hands it to the log. Bytes are numbers in lists, which the
-- predicate AreBytes puts below 256; where a Go array has a fixed length, a predicate says so
-- (IsHopData, IsOnionPacket). A method on a pointer takes the state and returns it. The order in
-- which Go ranges over a map is an argument. Loops recurse on a list or on the number of rounds
-- that are left; `to_bytes` has the number itself as its fuel, which is more than it has digits,
-- and the `Decode` of a replay set takes fuel, of which one more than the input is long is enough,
-- since each round reads two bytes or ends.
--
-- Not modelled: log.go, which sets a logger and no more; hornet.go, which declares types that
-- nothing uses, and comments; what cmd/main.go writes to standard error, and its input where it
-- is not ASCII; and the struct that a failed Decode of obfuscation.go leaves behind.
pub mod Prelude
pub mod Bytes
pub mod Stream
pub mod Crypto
pub mod Sizes
pub mod HopData
pub mod Route
pub mod Secrets
pub mod Packet
pub mod Onion
pub mod Process
pub mod GoMap
pub mod Replays
pub mod Batch
pub mod ReplayLog
pub mod Router
pub mod Transaction
pub mod ErrorOnion
pub mod Circuits
pub mod Hex
pub mod Cli
pub mod Examples
