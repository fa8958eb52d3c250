-- ===== src/Examples/Frames.antt =====
-- Readers, writers and frames at concrete inputs (pkg/io, codec).
use less.Base.{
  ℕ, ◌+◌, ◌≤◌, ◌≡◌, refl, inl, true, List, [], ◌∷◌, ◌++◌, Bytes, some, ok, panic, hang, arith,
  replicate,
}
use less.Io.Source.{source, Got}
use less.Io.Buffer.{BufferReader, new_buffer_reader, buffer_reader, peek, next, read_buffered}
use less.Io.Buffer.Unread.{unread, IsValid}
use less.Io.Buffer.Stream.{IsReady, Taken, next-IsReady}
use less.Io.Buffer.Read.{ReadTaken, read-IsReady}
use less.Io.Buffer.Growth.{peek-growth_panics}
use less.Io.Buffer.Until.{until, IsLive, until-line}
use less.Io.Buffer.Api.{buffer_stream}
use less.Io.Limit.{LimitReader, new_limit_reader, limit_reader}
use less.Io.Limit.Laws.{InFrame, Settles}
use less.Io.Writer.{Sink}
use less.Io.BufferWriter.{BufferWriter, new_buffer_writer, buffer_writer, write, flush}
use less.Io.BufferWriter.Exhausted.{write-flush_hangs}
use less.Codec.{text, run}
use less.Codec.Text.{text_codec, text_marshal, text_un_marshal}
use less.Codec.Frame.{run-Settles}
use less.Codec.Packet.{variable_length_encode, variable_length_decode}
use less.Codec.Packet.Decode.{Consumed, announced, variable_length_decode-Consumed}
use less.Codec.Packet.Encode.{variable_length_encode-grown}
use less.Codec.Packet.RoundTrip.{new-IsReady}

abbrev conn : Sink
conn = record { sent = []; open_ = true }

abbrev hi : Bytes
hi = 104 ∷ 105 ∷ []

-- The frame of `hi`, in two chunks, and a byte behind it.
abbrev chunks : List Bytes
chunks = (0 ∷ 0 ∷ 0 ∷ []) ∷ (2 ∷ 0 ∷ 104 ∷ 105 ∷ 7 ∷ []) ∷ []

abbrev reader : BufferReader
reader = new_buffer_reader (source chunks)

until-line_example :
    (r2 : BufferReader) × (until 104 reader ≡ (ok (0 ∷ 0 ∷ 0 ∷ 2 ∷ 0 ∷ 104 ∷ []), r2))
    × (unread r2 ≡ 105 ∷ 7 ∷ [])
    × IsLive r2
unfolding new_buffer_reader
until-line_example =
    until-line 104 (105 ∷ 7 ∷ []) (0 ∷ 0 ∷ 0 ∷ 2 ∷ 0 ∷ []) reader
      (record {
        is_valid = (new-IsReady 0 (source chunks) (omega arith) (omega arith)).is_valid;
        growable = refl;
        some_room = omega arith;
        inside = omega arith;
      })
      (refl, (refl, (refl, (refl, (refl, tt))))) refl

abbrev long : Bytes
long = replicate 300 65

variable_length_encode-grown_example :
    (w : BufferWriter) × (variable_length_encode buffer_writer text_codec
        (text long)
        (new_buffer_writer conn)
      ≡ (ok tt, w))
    × (w.decorator ≡ some (record { sent = replicate 5 0 ++ long; open_ = true }))
unfolding text_codec text_marshal
variable_length_encode-grown_example =
    variable_length_encode-grown conn refl text_codec (text long) long refl (omega arith)

ready : (k : ℕ) → k ≤ 8 → IsReady k reader
ready k h = new-IsReady k (source chunks) (omega arith) h

IsReady-announced : IsReady (5 + announced buffer_stream reader) reader
unfolding new_buffer_reader buffer_reader
IsReady-announced = ready 7 (omega arith)

variable_length_decode-Consumed_example :
    Consumed buffer_stream
      (5 + announced buffer_stream reader)
      reader
      (variable_length_decode buffer_reader text_codec reader)
unfolding new_buffer_reader buffer_reader
variable_length_decode-Consumed_example =
    variable_length_decode-Consumed buffer_stream text_codec reader (omega arith) IsReady-announced

next-IsReady_example :
    (r2 : BufferReader) × (next 4 reader ≡ (ok (0 ∷ 0 ∷ 0 ∷ 2 ∷ []), r2)) × Taken 6 4 reader r2
unfolding new_buffer_reader
next-IsReady_example = next-IsReady 6 4 reader (ready 6 (omega arith)) (omega arith)

read-IsReady_example :
    (g : Got) × (r2 : BufferReader) × (read_buffered 4 reader ≡ (ok g, r2))
    × ReadTaken 6 4 reader g r2
read-IsReady_example = read-IsReady 6 4 reader (ready 6 (omega arith)) (omega arith)

-- A reader whose buffer of 10 bytes holds `write_index` bytes.
abbrev holding : ℕ → BufferReader
holding write_index = record {
  decorator = source chunks;
  mem = replicate 10 1;
  len = 10;
  growable = true;
  read_index = 0;
  write_index = write_index;
}

holding-IsValid : (w : ℕ) → w ≤ 10 → IsValid (holding w)
holding-IsValid w h = record {
  ordered = omega arith;
  within = omega arith;
  tight = λ _. refl;
  kept = inl h;
}

peek-growth_panics_example : (peek 12 (holding 5)).0 ≡ panic
peek-growth_panics_example =
    peek-growth_panics (holding 5) 12 (holding-IsValid 5 (omega arith)) refl (omega arith)
      (omega arith) (omega arith) (omega arith)

abbrev frame : LimitReader BufferReader
frame = new_limit_reader reader 3

frame-InFrame : InFrame buffer_stream 3 (unread reader) frame
unfolding new_limit_reader buffer_reader
frame-InFrame = record {
  bound = omega arith;
  le = omega arith;
  ready = ready 3 (omega arith);
  at = refl;
}

run-Settles_example :
    Settles buffer_stream 3 (unread reader) (run (limit_reader buffer_reader) text_un_marshal frame)
run-Settles_example =
    run-Settles buffer_stream 3 (unread reader) text_un_marshal frame frame-InFrame

-- A writer whose buffer of 4 bytes is full.
abbrev full_writer : BufferWriter
full_writer = record {
  decorator = some conn;
  array = 0;
  mem = replicate 4 7;
  base = 0;
  len = 4;
  pre_write_index = 0;
  write_index = 4;
  growable = true;
}

write-flush_hangs_example :
    ((flush full_writer).0 ≡ ok tt) × ((write hi (flush full_writer).1).0 ≡ hang)
write-flush_hangs_example =
    write-flush_hangs full_writer conn hi refl refl refl (omega arith) refl refl (omega arith)
