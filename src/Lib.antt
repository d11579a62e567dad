-- ===== src/Lib.antt =====
-- babel-rs: the Babel routing protocol as a library, a runtime and a Linux daemon.
--
-- The protocol crate (crates/babel-protocol) is synchronous: a host hands it time, packets and
-- local events, and it answers with actions. This library models that crate's core.
--
-- * Model, Model/*: crates/babel-protocol/src/model.rs. Addresses are octets; a prefix is a value
--   of the ipnet crate, a parameter (`IpNet`) with what the code relies on as laws.
-- * Metric, Metric/*: crates/babel-protocol/src/metric.rs. A Hello history is its bits, samples
--   and expected number; the wired and ETX metrics are functions of the histories and the
--   reported cost. The delay metric computes in floating point and is not modelled.
-- * Mac, Mac/*: crates/babel-protocol/src/mac.rs. `Mac.Keys` has keys, configuration and
--   endpoints, `Mac.Frame` the framing, `Mac.Session` the state and `sign`, `Mac.Receive` the
--   function `receive` in the order of the source: verification, the scan of the body, a reply,
--   and what is settled. Digests and the comparison in constant time come from other crates and
--   are the parameter `Crypto`. The random source is called at most once by an operation, so its
--   outcome is an argument.
-- * Wire, on crates/babel-protocol/src/wire.rs and its directory wire/: the semantic content of
--   packets. `Wire.Frame` has the framing that all loops share (put_tlv, be16), `Wire.Framing` a
--   description of framed octets, `Wire.Prefix`
--   addresses and compressed prefixes (prefix.rs), `Wire.Decode` the decoder by its kinds of TLV
--   (decode.rs) with the context of a packet as a record and `Wire.Decode.Invalid` the
--   description of what it refuses, `Wire.Encode` the encoder (encode.rs),
--   `Wire.Packetizer` the datagrams of a packet and the stamping (packetizer.rs). Octets are
--   appended by the source and returned here; what the stamping writes in place is returned with
--   its result.
-- * Router, on crates/babel-router/src: `Router.Queue` is the admission of output_queue.rs over
--   interfaces for the semaphore and the channel of tokio, `Router.Scheduler` the output scheduler
--   of output.rs, which encodes what is due by `Wire.Packetizer`.
-- * Engine, Engine/*: crates/babel-protocol/src/engine.rs and its directory engine/. `Engine.Api`
--   has configuration, policies and actions (api.rs, policy.rs, limits.rs), `Engine.State` the
--   state, `Engine.Sources` feasibility distances and requests (sources.rs), `Engine.Output`
--   advertisements (output.rs), `Engine.Rib` feasibility and margins (rib.rs), `Engine.Admission`
--   the function `receive_update` (rib.rs) with the requests of `Engine.FollowUp`,
--   `Engine.Selection` the loop of `reselect`, `Engine.Validation` the checks of validation.rs,
--   `Engine.Recompute` the function `recompute_candidate_metrics`, `Engine.Updates` the function
--   `send_updates` and `Engine.Multicast` the others of output.rs that send on all interfaces, and
--   `Engine.Requests` has `handle_seqno_request` (sources.rs). The engine is passed along as
--   a value; the traits of the host (policy, metrics, algebra) are records of functions, so that
--   the theorems hold for every host.
-- * Base, Base/*: tests, lists, keyed collections with one entry for a key, results, machine
--   words and bit masks.
-- * Examples, Examples/*: tests and the theorems at concrete inputs.
--
-- Numbers are unbounded with the wrap or the saturation of the source written out; sequence
-- numbers are below 2 ^ 16 by hypothesis. A shift of sixteen bits by sixteen places is as in a release
-- build, where it shifts nothing. The loop of `tlvs` has a round for each octet and one
-- more, which `Mac.Frame.tlvs_loop_enough` shows to be enough: more rounds change nothing. The
-- loops of the decoder have as many, and the one of the packetizer a round for each TLV and one
-- more; if they had too few the result would be the error `out_of_fuel`, which the theorems on how
-- they end rule out. Keyed collections are association lists, and an iteration over a collection follows the list,
-- whatever order the source's has.
--
-- Not modelled: the end of `reselect`, behind the selection, the timers, the charge of a packet in the
-- output queue, the asynchronous router, and the daemon. Sockets, files, netlink and process
-- handling have no model.
pub mod Base
pub mod Model
pub mod Metric
pub mod Mac
pub mod Router
pub mod Wire
pub mod Engine
mod Examples
