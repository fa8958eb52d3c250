-- ===== src/Tcp.antt =====
-- The TCP transport: its connections (transport/tcp/std.go, transport/connection.go).
pub mod Options
pub mod Conversation
pub mod Listen
pub mod Poll
pub mod Driver
pub mod Dial
use less.Base.{
  ℕ, zero, suc, ◌+◌, Bool, false, Option, none, some, Error, Outcome, ok, err, panic, hang, ◌==◌,
  if◌then◌else◌,
}
use less.Io.Source.{Source, Got, read}
use less.Io.Buffer.{BufferReader, new_buffer_reader}
use less.Io.Writer.{Sink}
use less.Io.BufferWriter.{BufferWriter, new_buffer_writer}

abbrev pub active : ℕ
active = 0

abbrev pub inactive : ℕ
inactive = 1

-- The `delegate` is a net.Conn: what it delivers, what it has taken, and how often it was closed.
pub record Connection : Type 0 where
  pub input : Source
  pub output : Sink
  pub delegate_closed : ℕ
  pub closed : ℕ

unfoldable pub wrap_connection : Source → Sink → Connection
wrap_connection input output = record {
  input = input;
  output = output;
  delegate_closed = 0;
  closed = active;
}

-- `Read` passes the call on.
unfoldable pub conn_read : ℕ → Connection → Got × Connection
conn_read n c = let r = read n c.input in (r.0, record c { input = r.1 })

-- Every call of `Reader` and of `Writer` makes another one.
unfoldable pub conn_reader : Connection → BufferReader
conn_reader c = new_buffer_reader c.input

unfoldable pub conn_writer : Connection → BufferWriter
conn_writer c = new_buffer_writer c.output

unfoldable pub is_active : Connection → Bool
is_active c = c.closed == active

-- `answer` is what the net.Conn's own Close returns.
as_outcome : Option Error → Outcome (Unit {0})
as_outcome none = ok tt
as_outcome (some e) = err e

unfoldable pub conn_close : Option Error → Connection → Outcome (Unit {0}) × Connection
unfolding as_outcome
conn_close answer c =
    if c.closed == active
    then (
      as_outcome answer,
      record c {
        output = record (c.output) { open_ = false };
        delegate_closed = c.delegate_closed + 1;
        closed = inactive;
      },
    )
    else (ok tt, c)
