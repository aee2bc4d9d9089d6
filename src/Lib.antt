-- ===== src/Lib.antt =====
-- The instant-messaging server, verified: the binary protocol that clients and server speak, the
-- dispatcher that turns the bytes of a connection into frames and frames into bytes, the login of a
-- connection and the table of a user's connections, the processor of messages with the channels that
-- say who may send and who receives, the conversations of a user, the retry queue of the messages
-- that wait for an acknowledgement, the segment files in which messages are stored with their index
-- and their check after a crash, the files of streams, the lock for each key, the queue between
-- goroutines, and the window of samples of the monitor.
--
-- The parts. A client opens a connection; the network engine puts what arrives into a buffer and
-- calls `Dispatch.dataIn` (internal/server/dispatch.go). It cuts the whole frames from the buffer
-- with `gnetUnpacket`, decodes them with `DecodeFrame` (pkg/proto/protocol.go), and keeps them in
-- the connection's context (internal/server/conn_context.go) for the processor; before
-- authentication a CONNECT is the one frame that is accepted. `dataOut` encodes with `EncodeFrame`
-- and appends to the outbound buffer.
--
-- The processor (internal/server/processor.go) answers a CONNECT: it checks the token, derives the keys,
-- removes older connections of the device from the connection manager (conn_manager.go), and registers
-- the new one. SEND packets are split by channel; for each channel (channel.go) the sender's permission
-- is checked, the packets are checked and decrypted, stored, put to the webhook's queue and to the
-- channel, and acknowledged. A channel changes the conversations of its receivers (conversation.go),
-- under a lock for each channel (pkg/keylock/keylock.go). The parts of a message that is written while
-- it is read are kept in a stream (pkg/okstore/stream.go).
--
-- A message that is delivered goes into the retry queue (internal/server/retry_queue.go), a map by
-- key beside a heap by time (in_flight_pqueue.go): an acknowledgement takes it from both, and a timer
-- delivers again what is due. Messages are stored in topics, which are segments
-- (pkg/okstore/segment.go): files of encoded messages (message.go), each with a sparse index from
-- sequence numbers to positions (segment_index.go). When a segment is opened its file is checked, and
-- cut behind the last whole message.
--
-- Files and code:
--   Prelude and below: Booleans, lists, signed integers, bits and words of bytes.
--   Proto/Types, FrameType, ByteSize: the packets, the frame and the constants of pkg/proto
--     (common.go, setting.go and the struct of each packet's file).
--   Proto/Encoder, Proto/Decoder: the writers and readers of encoder.go and decoder.go; Appends and
--     Reads below them say what each does with bytes, Crash is about lengths that make a reader panic,
--     and Variable about Decoder.Variable and Encoder.WriteVariable.
--   Proto/Header: Flags is ToFixHeaderUint8 and FramerFromUint8 (common.go), Length is
--     encodeVariable, encodeVariable2 and decodeLength (protocol.go).
--   Proto/Connect, Connack, Send, Sendack, Recv, Recvack, Disconnect, Sub, Suback: the decode,
--     encode and size functions of the file of that name; RoundTrip below each is about its body.
--   Proto/Codec: DecodeFrame and EncodeFrame (protocol.go) with `decodeFramer` and `encodeFrame`,
--     which is `encode_header` here. Below it, Wire has the bytes of every frame, and RoundTrip,
--     Partial, Bounds, Sizes and Crash are about decoding whole, cut, arbitrary and bad bytes.
--   Server/Dispatch: dataIn and the context's putFrame and disableRead; Unpack below it is
--     gnetUnpacket with the dispatcher's own decodeLength, Out is dataOut, Context the other
--     operations of internal/server/conn_context.go on the cached frames. Stream, Unauthed and
--     Rounds are about dataIn: authenticated, not authenticated, and the bounds on its loops.
--   Server/Queue: internal/server/queue.go. Okutil/Fifo: pkg/okutil/fifo.go.
--   Proto/ChannelType, Proto/Reason: constants of pkg/proto/common.go.
--   Server/Members: the maps of users of a channel. Server/Channel: channel.go and hasPermission of
--     processor.go; Permission and Reasons below it are about who may send,
--     Receivers about RealSubscribers.
--   Server/Processor: what processor.go calls, and how it checks and stores; Messages below it is
--     processMsgs and prcocessChannelMessages, Acks is about the acknowledgements, Sorts about what
--     the check of packets passes on, and Refuses about a sender with the permission and without.
--   Server/ConnManager: conn_manager.go with the table of pkg/oknet/engine.go; Removes and Closes below
--     it are about RemoveConnWithID.
--   Server/Auth: processAuth of processor.go. Below it, Ids, Kicks and Loop are about the
--     loops over older connections, Login about a login of any level, Master and Slave about the two
--     levels, and Crash about panics.
--   Server/Conversation: AddOrUpdateConversation, calConversation and calcLoop of conversation.go;
--     Counts below it is about what a conversation holds after messages.
--   Keylock: pkg/keylock/keylock.go, each section under a mutex as a step of a goroutine. Threads below
--     it has the interleavings, Frames the invariant, Invariant the steps that keep it, Safety what
--     follows.
--   Server/InFlight: internal/server/in_flight_pqueue.go. Below it, Swaps is about one swap, Order
--     and Down about the order that up and down restore, Kept about what they keep, and Heap, Removal
--     and Removes about the operations.
--   Server/RetryQueue: internal/server/retry_queue.go; Process, Delivery and Start below it are about
--     finishMessage, processInFlightQueue and startInFlightTimeout.
--   Okstore/File: files as lists of bytes, with the reads that pkg/okstore makes of them.
--   Okstore/Message: message.go, and the functions of const.go that read one message.
--   Okstore/Index: segment_index.go; Search below it is about the binary search, Write and
--     Entries about Append.
--   Okstore/Segment: segment.go. Log below it says what a file of whole messages holds, Reads what
--     reads of it give, Refines and Single that a segment implements a log, Append that it still does
--     after a write. Segment/Check is the check of the file when it is opened; below it, Torn is about
--     a message that was cut, Loops, Recovers, Opens and Init about the check and `init`.
--   Okstore/Topic: readMessages of topic.go over the segments, which getSegment gives; Reads below it
--     says that a topic implements the logs of its segments.
--   Okstore/Stream: stream.go; Item below it is EncodeStreamItem and currentStreamItem of model.go, with
--     Body and RoundTrip about reading what was written; Reads is about the loops over a file, Run
--     about any sequence of writes and reopenings.
--   Tests: every theorem of the list at a concrete input.
--
-- How the code is read. A byte is a number below 256 and a Go string the list of its bytes. A word
-- is a number with its wrap-around written out; a field of a signed type holds its bit pattern, and
-- where the code computes with the sign (the length before a string) it is a ℤ. A function that
-- returns an error is a `Result`, and so is one that can panic: a slice expression out of range is
-- `panic`. The texts of errors and the log are left out. A method that changes its receiver takes
-- its state and gives the new one. The state of `dataIn` is the pair of the server's counters and
-- the connection.
--
-- Loops. The loops over a number in groups of seven bits run on the number itself, which each round
-- divides. `gnetUnpacket` and the loop of `dataIn` run on the number of bytes: a round takes at
-- least one, so the bound is never reached. `Decoder.Variable` runs on the bytes that are left.
--
-- `check` and `sanitySimpleCheck` run on the size of the file, `readTargetPosition` on what is left of
-- it, `readMessagesAtPosition` on the limit, the binary search on the number of entries, the loop of
-- a topic's `readMessages` on the number of segments, and `up`, `down` and `processInFlightQueue` on
-- the length of the heap: each theorem shows its bound to be enough.
--
-- The calls on a connection's context run one after the other in the model. In the code `finishFrames` holds
-- a read lock only, so that two goroutines of the pool can run it at once.
--
-- The store. A segment implements a log, a list of messages with ascending sequence numbers, when its
-- file is their bytes and each entry of its index is the sequence number and the position of one of
-- them. The file stays under 2^32 bytes, as the code keeps positions in uint32; errors of the disk are
-- left out. A crash leaves whole messages and the first bytes of one more. The check sees these when
-- the file does not end in the end magic number or is small enough to be read in full (`Seen`).
--
-- The heap. Its items are pointers into a store of messages, which hold their own place: that is the
-- aliasing that Remove goes by. Go's capacity of the slice is a field, and a run-time panic is `none`.
-- The operations of the retry queue run under its lock one after the other.
--
-- What can be sent. `IsSendable` asks that the fields hold what their Go types hold, that every
-- string has less than 2^15 bytes (the decoder reads its length as an int16), and that the body
-- has at most 1 MiB, which is what DecodeFrame accepts.
--
-- The server around the processor is a state of any type `W`, and what the processor calls is a record of
-- functions over it (`Services`), which may fail and may change the state when they do: the options,
-- the store, the channel manager, the put to the channel, AES, MD5, the checksum and the generator of
-- message ids. The order in which Go ranges over the map of channels is an argument. `processAuth` has
-- its own record (`AuthServices`). The maps of users are lists of their keys, and a channel's parent is
-- asked once, as a community is no topic.
--
-- The connections. The engine's table is a function from file descriptors, and a descriptor that is
-- missing in `connMap` reads as 0, as in Go. The loop of RemoveConnWithID runs over the slice as it was,
-- while the array under it is changed; the model keeps both. go.mod says go 1.20, so the functions that
-- timers call share one variable of the loop: the model keeps the timers and what the variable holds, and
-- runs them (`run_timers`) with what it holds at the end.
--
-- The key lock. Goroutines are numbers below a bound; a step is a section under `mutex` or a call of the
-- lock's own `sync.Mutex`, and any goroutine may go next. A goroutine unlocks the key that it has locked.
-- The conversation cache of golang-lru is a record of functions (`Lru`).
--
-- Arguments for code that is elsewhere: `connIsAllow` (the first argument of `data_in`), and what a
-- connection makes of bytes that are written (the first argument of `data_out`: a websocket adds
-- its header). `Messages` is what the store calls of a message and the configured DecodeMessageFnc,
-- with what it relies on in `IsStored`; `decimal` is how fmt.Sprintf writes a message id. Counters of
-- the Prometheus monitor are left out.
--
-- Not modelled: the other handlers of the processor (PING, RECVACK, SUB, the grouping of frames and the
-- close), the delivery to connections, the reading and the flushing of conversations, webhooks, the
-- HTTP interface, the writes to topics with the roll to a new segment, the metadata of streams and the
-- slots of the message store and the opening of its index, the network engine with its ring buffers and
-- the copy of crypto/tls, DecodePacketWithConn, which a client uses, and the printing of packets.
pub mod Prelude
pub mod Proto
pub mod Server
pub mod Tests
pub mod Okutil
pub mod Keylock
pub mod Okstore
