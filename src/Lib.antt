-- ===== src/Lib.antt =====
-- KWIK is a transport in Go: streams of bytes over one or more paths (QUIC connections), with its
-- own frames, packets and acknowledgements. The parts of the program, and how they interact:
--
-- A Stream (stream.go) has, per path, a SendStream, which buffers the written bytes and gives them
-- out as STREAM frames, and a RecvStream, which puts arriving frames in order and serves Read. The
-- packer (internal/transport/packer.go) puts frames into numbered packets and keeps each packet
-- until it is acknowledged. A path (internal/transport/path.go) writes packets, each behind its
-- length in four bytes, on a QUIC stream, and a reader (internal/transport/reader.go) takes them off
-- that stream. The multiplexer (internal/transport/multiplexer.go) decodes the packets
-- (internal/protocol), records their numbers for the ACK frames that it makes, and hands the frames
-- to the streams, to the packer (ACK frames), or to the path (control frames).
--
-- Files, and the code that each one is about:
--   Prelude         lists, tests and maps that the other files share. A Go map is an association
--                   list, in which an insertion replaces the entry of its key.
--   Protocol        internal/protocol. Errors: its error codes, and the outcomes of a call, where
--                   `panic` stands for a run-time panic. Reader: a bytes.Reader as a state monad on
--                   the bytes that are left. Frame: the frame types and Serialize. Parse: ParseFrame.
--                   Packet: Packet.Serialize and DeserializePacket. RoundTrip, Prefix, Bounds and
--                   Packet/RoundTrip hold the theorems on them.
--   Stream          stream.go. Recv: RecvStream (handleFrame, the rounds of Read, the read offset).
--                   Send: SendStream (Write, PopFrames) and shouldFlushSendStream of StreamImpl.
--                   Recv/Reorder, Recv/History, Recv/Faithful, Recv/Run, Send/Pop, Send/Account and
--                   Transfer hold the theorems.
--   Transport       internal/transport. Wire: the framing of packets on a path's QUIC stream, written
--                   by WriteStream of path.go and read by the reader loop of reader.go. Acks: the
--                   record of received packets, GetAckRanges and cleanupAckedPackets of
--                   multiplexer.go, and OnAck of packer.go. Packer: SubmitFrame of packer.go with the
--                   queues and the pending packets. Packer/Registry: its other operations on these.
--                   Packer/Retransmit: the retransmission loop. Packer/Flush: SubmitFromSendStream and
--                   the flush goroutine. Paths: the path manager of path_manager.go. PathImpl: a path
--                   of path.go with its streams (ErrorText: how it classifies errors; Recovery: the
--                   errors, the recovery and WriteStream; Control: the handshake that opens a stream,
--                   the control frames and relayed data; Lifecycle: NewPath, the health loop, Close;
--                   Steps: the operations in any order). Reception:
--                   stream_buffer.go and the ReceptionBuffer of multiplexer.go. AckSender:
--                   processAckRequest of multiplexer.go, over Acks and Packer. Relay: relay.go, over
--                   Packer. Multiplexer:
--                   PushPacket of multiplexer.go, over Reception, AckSender and Streams. The other files below
--                   Acks, Multiplexer, Packer, Paths, PathImpl, Reception and Wire hold the theorems.
--   Streams         stream.go and stream_manager.go. StreamImpl: a stream with its halves and paths, over
--                   Stream. Manager: the streams of a session. Attached, Writes, Numbers and Stuck hold
--                   the theorems, the last one over PathImpl.
--   Http            kwikhttp/protocol.go and server.go. Text and Numerals: what it uses of strings, bufio and strconv,
--                   for ASCII. Headers: HTTPHeaders. Messages: requests, responses and their
--                   serialization. Parse: the two parsers. Server: the
--                   response writer, the routes and the middleware of kwikhttp/server.go. The other
--                   files hold the theorems.
--
-- A Go map is iterated in any order: RemovePath takes as an argument where its iteration starts.
-- Numbers are natural numbers; a uint64 that is added to wraps at 2 ^ 64, as `add64` and the written
-- out `% 2 ^ 64` say. A byte is a number below 256. Each operation that holds a mutex is one step,
-- and a history of a component is a list of such steps. A call that waits (Read without data) is a
-- step with the outcome `blocked`.
--
-- Parameters and fuel: the loop over the headers of an HTTP message runs on fuel, the length of the
-- input, which is shown to be enough; 20 rounds are enough to print a number of 64 bits. `max_alloc` is the size beyond which Go's make panics, and it is a parameter
-- of the parsers. The loop over the buffered chunks in handleFrame runs on fuel, and two rounds are
-- shown to be enough in every state. The loops of the reader over its buffer and of StreamBuffer.Read
-- over its chunks run on the size of the buffer, which is shown to be enough. The loops over the numbers in acknowledged ranges run on
-- fuel that exceeds these numbers, which is enough unless a range goes up to the largest uint64.
--
-- The answer of a path's WriteStream, the QUIC stream that it names and the time are arguments of the
-- packer's operations, and what they write is part of their result. A call of SubmitFrame is one
-- step, though it takes the mutex several times. In the retransmission loop, the collection of the
-- due packets and the answer to each of their writes are steps of their own.
--
-- A path (PathImpl) keeps a log of what it asks of the packer, the session and QUIC, and what these
-- answer is an argument of its operations, among them the text of an error. An operation that waits
-- for a mutex which is never released ends as `blocks`. A goroutine that an operation starts runs at
-- once, and what it asks for is in the log, with two exceptions: the connection may be lost before
-- NewPath is through, and the goroutines for relayed data go on in steps (Race), between which other
-- operations may come. PushPacket runs with no other goroutine in between.
--
-- Not modelled: QUIC, TLS and the network, goroutines and their scheduling, timers, the worker pools,
-- and logs, which are I/O; Packer.ResendRanges, which nothing calls, and Packer.Close; the worker of the multiplexer's
-- queue and handleControlFrameFallback; AddRelay of the path manager, the sessions of client.go, server.go and listener.go,
-- and of kwikhttp the client and, of the server, its loops over sessions and streams and the static
-- files.
pub mod Prelude
pub mod Protocol
pub mod Stream
pub mod Transport
pub mod Streams
pub mod Http
