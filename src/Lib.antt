-- ===== src/Lib.antt =====
-- roq, the RTP-over-QUIC library, in the files of the repository's root and in qlog/: an application opens
-- send flows, which write RTP packets to QUIC datagrams and streams, and receive flows, which queue the
-- packets of datagrams and streams that carry their flow ID. This library models those files and proves
-- what the parts do alone and together.
--
-- The parts, from the wire up:
-- - Quicvarint: github.com/quic-go/quic-go/quicvarint, which is not part of the repository: a record of its
--   functions, a parameter everywhere, and a record of what its documentation and RFC 9000 promise.
--   Quicvarint/Rfc has functions that keep those promises, for the tests.
-- - RtpSendStream (rtp_send_stream.go): `write_rtp_bytes` is `RTPSendStream.WriteRTPBytes`, `flush` the method of
--   that name; the QUIC stream is the interface `SendStream` of session.go, over a state of its own, with
--   the promise of io.Writer. Wire is about one call, Run about any sequence of calls, Pipe a stream for tests.
-- - SendFlow (send_flow.go): datagrams, and the streams of a flow by their addresses. `open_send_stream` and
--   `add_stream` are the two critical sections of `NewSendStream`.
-- - ReceiveFlow (receive_flow.go): the bounded queue, the buffer pool, the registered streams, the
--   deadline. Every function is one critical section. Reader is `Read` as a state machine, Frames `readStream`
--   and `readVarint`, Queue the packets as an abstract bounded queue, Invariant the critical sections as steps
--   in any order, and Interleaving the loops of several streams against each other, datagrams, `Read` and
--   `Close`, beside an abstract bounded queue.
-- - ReceiveFlowBuffer (receive_flow_buffer.go): the flows that packets came for before `NewReceiveFlow`.
-- - SyncMap (sync_map.go), Errors (errors.go), Options (options.go, and `newQlogger` of session.go),
--   Qlog (qlog/event.go, qlog/qlog.go), Qlogger (qlogger.go).
-- - Session (session.go): the session's fields, the heaps of its flows, and a record of what was done
--   to the outside. Shutdown has `close` and `Close`, Incoming `HandleDatagram` and the two handlers of
--   streams; Creation and Life have the session from its creation on, as steps of its operations and of the
--   methods of its flows, and Flows,
--   Closing, CloseEffect, FlowIds, Race, Datagrams, EarlyPackets and Streams the other theorems. `create_session` is
--   `NewSessionWithAppHandledConn`, and `NewSession` up to the start of its loops. Loops has those: `start`, the
--   loops of `receiveUniStreams` and `receiveDatagrams`, a goroutine for each stream, the wait group, and the
--   callers of `Close`, as steps in any order, a failure of the connection and the application's other calls among
--   them. A receive loop fails only where the session's context has ended or the connection failed; Shutting and
--   Finite are about the way to the end of the goroutines; AfterClose is about calls behind `Close`.
--   Demux is about the datagrams of many flows: Addressed and Life show that a flow has one ID, Sorted that
--   its queue gets its own packets.
-- - Locks (the files of the root): the mutexes that each function takes, and goroutines that run calls of the
--   library in any interleaving.
-- - QuicConnection (quic_connection.go): quic-go's streams and its connection as the interfaces that the
--   library uses.
-- - Interop (examples/interop): Sender (sender.go) is `send` in its three modes, over pion's packetizer as a
--   parameter; FileWriter (file_writer.go) the writer behind a jitter buffer; Main (main.go) the TLS
--   configuration, `connect` and the buffered writer; Program (main.go, receiver.go) goes from the flags to the
--   end of `setupAndRun`, with what it acquires and releases. EndToEnd goes from `send` to the queue of a
--   session at the other end.
-- - Playfromdisk (examples/playfromdisk/main.go): the loop of `main`, which sends each frame on a stream, and in
--   Program what is around it; Saved goes from its frames to the file of savetodisk.
-- - Savetodisk (examples/savetodisk/main.go): the loop of `main`, on the flow that it reads from, and in
--   Program what is around it.
--
-- How Go is modelled (Common): numbers are natural numbers; no arithmetic of the code can wrap, as lengths are
-- below 2^62. An `int` that may be negative is an integer. A pointer is an address in a heap, or an `Option`
-- where it may be nil. A map is an association list, a channel its queue, and a channel that is only closed
-- its identity; `faulted` records an operation at which Go panics, and a panic of a function is `none`. What the
-- code does to the outside is kept in lists: cancelled streams, closed streams, recorded events. A mutex
-- makes a critical section one function. The choice of sync.Pool, and of a `select` with two ready cases, is
-- an argument.
--
-- The loop of `readStream` runs on fuel: a round for each byte of the stream and one more, which is
-- enough, as every round takes a byte (ReceiveFlow/Frames/Total); the eviction loop is structural in the queue.
-- The loop of the file writer's `Write` runs on fuel too: one more than the size of its jitter buffer is
-- enough, by any size that each `Pop` makes smaller. That of savetodisk needs
-- a round more than the queue has packets. In Session/Loops no loop has a bound.
--
-- What a program of examples/ acquires and releases is a list of acts, to which a `defer` adds at the end
-- (Common/Acts); what its calls answer is a record.
--
-- Not modelled: the log records' texts; of examples/, what the processes, io.Copy and
-- the frame reader of pion do, the flags of playfromdisk and savetodisk, and the settings of QUIC.
pub mod Common
pub mod Quicvarint
pub mod Qlog
pub mod Errors
pub mod Qlogger
pub mod RtpSendStream
pub mod ReceiveFlow
pub mod SyncMap
pub mod ReceiveFlowBuffer
pub mod Options
pub mod SendFlow
pub mod Session
pub mod Interop
pub mod Savetodisk
pub mod Playfromdisk
pub mod Locks
pub mod QuicConnection
