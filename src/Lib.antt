-- ===== src/Lib.antt =====
-- A model of Less, a network framework in Go, and what holds of it.
--
-- A server owns a transport, which accepts connections and drives a transport handler with events
-- (connect, message, closed). The handler wraps a connection in a channel, takes a pipeline of hooks
-- and middlewares for it, reads frames with a packet codec and a payload codec, and gives the messages
-- to the pipeline; a keeper watches each channel with timers. The files follow these parts:
--
--   Base: lists, Boolean tests and call results (a value, an error, a panic, or no return) that the
--     others share.
--   Io: connections as chunks of bytes (Source), the interfaces of pkg/io (Reader, Writer), the buffered
--     reader of pkg/io/reader/buffer.go (Buffer, with Until in Buffer.Until), the limited reader of
--     pkg/io/reader/limit.go (Limit), and the writers of pkg/io/writer/buffer.go (BufferWriter). A slice
--     that Malloc returns is a Region of an array, so a write through it is lost once the writer has
--     moved on to another array.
--   Codec: codec/codec.go; a payload codec is a tree of the calls that it makes. Text and Json are
--     codec/payload, LessCodec internal/msg, Packet and Delimiter are codec/packet.
--   Pipeline: func.go and internal/channel/pipeline.go, over any world that hooks and handlers change.
--   Channel: internal/channel/channel.go and waitgroup.go. Closing has Close and the goroutine that it
--     starts, as a step relation between whose steps other goroutines run.
--   Keepalive: keepalive/keepalive.go and internal/keepalive/keepliave.go. Keeper has the callbacks of
--     the timers, each of which answers when it is to be called again.
--   Trans: internal/trans/trans_handler.go and options.go. The sync.Map of channels is an association
--     list, channels are named by numbers, Goroutines has the steps of OnConnect, closeChannel and
--     Close between which other goroutines run, Serving those of a handler, and Drain those while it is
--     closed. The functions on a handler in Trans itself are runs in which no one else does anything.
--   Tcp: transport/tcp. Options has the options in Go's memory, Listen the accept loop, Dial and the
--     settings of a connection, Poll the goroutine that reads, Driver the transport handler as what they
--     drive, Dial that handler when a connection is dialled, and Conversation messages that cross a
--     connection one after the other.
--   Pool: pkg/pool/go. Server: server/server.go, with the options that the servers of a process share.
--   Log: log/log.go and level.go, with log/global.go in Global.
--   Examples: the theorems at concrete inputs.
--
-- Numbers are natural numbers; a uint32 wraps where the source converts to it, and a subtraction is
-- written where the source's does not go below 0. The growth loops of the buffers run on fuel, one
-- more than the capacity asked for, which Io.Buffer.Growth shows to be enough for the reader's; Until
-- has one round more than there are bytes in the buffer and on the connection. Times and durations are
-- nanoseconds.
--
-- The libraries that the program calls are arguments: ants (Pool.Ants), encoding/json (Codec.Json.Json),
-- the net package's answers (Tcp.Listen) and its SplitHostPort (Server.Split), fmt and the valuers
-- (Log.Printing). The accept loop and the read loop run over lists of what they meet.
--
-- Not modelled: the timer wheel (internal/timewheel, a copy of another library), log/std.go and
-- log/value.go (copies of another project's), panics of OnChannel hooks, and the addresses of
-- connections.
mod Base
pub mod Io
pub mod Codec
pub mod Pipeline
pub mod Channel
pub mod Keepalive
pub mod Trans
pub mod Tcp
pub mod Pool
pub mod Server
pub mod Log
pub mod Examples
