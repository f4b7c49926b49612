-- ===== src/Lib.antt =====
-- PipeShellX runs commands on remote hosts and pipes between them. This library models the part of it
-- that carries the bytes: buffers and streams, the framed wire protocol with its flow control, and, at
-- the edge, the pipe spec, the planner, the inventory of hosts, the command policy and the retry delay.
--
-- How the parts interact. A producer writes into a stream (a bounded ring, and a spill file where the
-- policy says so) and a sink drains it. Between two hosts a session multiplexes streams over one
-- connection: what an application sends is queued, cut into DATA frames as the peer's credit allows,
-- encoded and written; the peer's frame decoder reassembles the frames from chunks of any size, and its
-- dispatcher checks each against the state of its stream, its role and its credit window. A controller
-- runs such a connection for each target, under a limit, and a canary controller two of those. A pipe spec
-- is parsed into a pipeline, which the planner orders; a policy is asked before a command runs.
--
-- Files, with the sources that they model (include/psx/ holds the headers):
--   Base          result.hpp (Error, Result, PSX_TRY), and shared tests, lists, words and integers
--   Text          string searches that the parsers of the sources use from the standard library
--   Stream.Window circular storage, for the ring
--   Stream.Buffer src/stream/bounded_buffer.cpp: BoundedBuffer, one function for each method; Append.Spec
--                 is the bounded queue that `append` is held to
--   Stream.Framer src/stream/line_framer.cpp: LineFramer; the lambda and the loop body of `push` are
--                 push_data, push_plain and push_byte
--   Stream.Credit src/stream/credit_window.cpp: CreditWindow
--   Stream.Spool  stream/spool_buffer.hpp: SpoolBuffer
--   Stream.Channel src/stream/stream.cpp: Stream, named channel here
--   Transport.Wire, Frame, Control, Open   transport/wire.hpp, src/transport/frame_codec.cpp,
--                 control_payloads.cpp, open_request.cpp
--   Transport.Session src/transport/session.cpp: State holds the fields of Session, Flush flushStream,
--                 Calls the methods that an application calls, Dispatch receive and dispatch
--   Transport.Controller src/transport/native_controller.cpp: the methods that move a run on; Inv, Rest and
--                 Runs are its invariant while a method runs, between events, and along a run
--   Transport.Canary src/transport/canary_controller.cpp
--   Policy        src/policy/policy.cpp
--   Pipeline      src/pipeline/parser.cpp and planner.cpp
--   Inventory     src/inventory/inventory.cpp: Parse, Import (importClientsTxt) and Select (the selections,
--                 add, remove, serialize)
--   Json, Sink    json/json.hpp, sink/sink.hpp, src/sink/json_sink.cpp (Sink/JsonLines),
--                 src/sink/group_sink.cpp (Sink/GroupLines), src/sink/consensus.cpp (Sink/Consensus)
--   Backoff       runtime/backoff.hpp
--
-- Conventions. A byte is a number, a string or span a list of them; a callback that a method calls is
-- the list of what it is called with, in order. A machine word is a number whose arithmetic is reduced
-- modulo its width where the source computes (add32, sub64 and so on). An error is a value of Result. A
-- map is an association list. A Session records in `log` the frames that it writes and the calls of its
-- observer.
--
-- Fuel. The decoder's loop runs on the length of its bytes, and each round that goes on takes at least a
-- header of 10; the flush loop runs on one more than the segments of the queue, and each round takes a
-- segment off or uses the credit up; consume runs on the bytes to move, of which each round moves one at
-- least; the loops of a channel run on one more than the bytes asked for, likewise; kahn runs on one
-- more than the stages, of which each enters the queue once; fillSlots on the connections, of which each
-- round starts one; digits on the number itself.
--
-- What is not modelled. The output that a controller captures, and the connections under it: what they
-- report comes as events in any order. Calls that an observer makes back into a session while a frame
-- is dispatched; readAll and the moves of SpoolBuffer; reading a policy or an inventory from its file;
-- the live, ordered and consensus sinks. The operating system, TLS, the certificate authority, the
-- reactor, the runners, the command line and the other output formats call libraries and the system or
-- format text, and stand outside. How a call of <cstdio> on the spill file
-- fares is a parameter. The jitter of a delay, a product of doubles, is not modelled.
pub mod Base
pub mod Text
pub mod Stream
pub mod Transport
pub mod Policy
pub mod Pipeline
pub mod Inventory
pub mod Json
pub mod Sink
pub mod Backoff
