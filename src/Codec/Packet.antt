-- ===== src/Codec/Packet.antt =====
-- The fixed length and the variable length packet codecs (codec/packet/fixed_length.go and
-- codec/packet/var_length.go).
pub mod Decode
pub mod Encode
pub mod RoundTrip
pub mod Own
pub mod JsonRoundTrip
use less.Base.{
  ℕ, ◌%◌, ◌^◌, Bytes, Outcome, ok, err, panic, hang, Method, ◌>>=◌, ◌>>◌, pure, take, replicate,
  length,
}
use less.Io.Reader.{Reader}
use less.Io.Limit.{LimitReader, new_limit_reader, limit_reader, limit_release, u32}
use less.Io.Writer.{Region, Writer, put_uint32}
use less.Io.BufferWriter.{
  BufferWriter, new_buffer_writer_with_buff, buffer_writer, DirectWriter, wrap_buffer_writer,
  direct_writer,
}
use less.Codec.{Program, run, run_marshal, Message, PayloadCodec}
use less.Codec.LessCodec.{un_be32}

-- binary.MaxVarintLen32.
abbrev pub max_varint_len32 : ℕ
max_varint_len32 = 5

module _ {S : Type 0} where
  -- A result kept while a deferred call runs; only its panic replaces the result.
  settle : {A : Type 0} → Outcome A → Outcome (Unit {0}) × S → Outcome A × S
  settle o (ok _, s) = (o, s)
  settle o (err _, s) = (o, s)
  settle o (panic, s) = (panic, s)
  settle o (hang, s) = (hang, s)

module _ {S : Type 0} (api : Reader S) where
  -- What the deferred function does: it releases the limited reader, and then goes on with `rest`.
  cleanup : Method S (Unit {0}) → Outcome (Unit {0}) × LimitReader S → Outcome (Unit {0}) × S
  cleanup rest (ok _, l) = rest l.decorator
  cleanup rest (err _, l) = rest l.decorator
  cleanup rest (panic, l) = (panic, l.decorator)
  cleanup rest (hang, l) = (hang, l.decorator)

  unfoldable pub deferred :
      {A : Type 0} → Method S (Unit {0}) → Outcome A × LimitReader S → Outcome A × S
  unfolding cleanup settle
  deferred rest (hang, l) = (hang, l.decorator)
  deferred rest (ok a, l) = settle (ok a) (cleanup rest (limit_release api l))
  deferred rest (err e, l) = settle (err e) (cleanup rest (limit_release api l))
  deferred rest (panic, l) = settle panic (cleanup rest (limit_release api l))

  -- `payloadCodec.UnMarshal(limitReader)` for a frame of `limit` bytes, and the release behind it.
  unfoldable pub un_marshal_frame : {A : Type 0} → Program A → ℕ → Method S A
  un_marshal_frame p limit s =
      deferred (pure tt) (run (limit_reader api) p (new_limit_reader s limit))

  unfoldable pub fixed_length_decode : ℕ → PayloadCodec → Method S Message
  fixed_length_decode length payload_codec = un_marshal_frame payload_codec.un_marshal length

  unfoldable pub variable_length_decode : PayloadCodec → Method S Message
  variable_length_decode payload_codec = do
    header ← api.next max_varint_len32
    un_marshal_frame payload_codec.un_marshal (un_be32 header)

module _ {W : Type 0} (api : Writer W) where
  -- A payload codec at work on the slice `buf` of the writer: `bufWriter` writes into the same
  -- array, so what stands in it is what `buf` holds afterwards.
  pub marshal_into : PayloadCodec → Message → Region → Method W (Unit {0})
  marshal_into payload_codec message buf w =
      let r =
        run_marshal buffer_writer (payload_codec.marshal message)
          (new_buffer_writer_with_buff buf.contents) in
      (r.0, api.store buf r.1.mem w)

  pub fixed_length_encode : ℕ → PayloadCodec → Message → Method W (Unit {0})
  fixed_length_encode length payload_codec message = do
    buf ← api.malloc length
    marshal_into payload_codec message buf
    api.flush

  counted : Outcome (Unit {0}) × DirectWriter W → Outcome ℕ × W
  counted (ok _, d) = (ok d.write_index, d.decorator)
  counted (err e, d) = (err e, d.decorator)
  counted (panic, d) = (panic, d.decorator)
  counted (hang, d) = (hang, d.decorator)

  -- `payloadCodec.Marshal(message, bufferWriter)`, and the length that `bufferWriter` counted.
  pub marshal_counted : PayloadCodec → Message → Method W ℕ
  unfolding counted
  marshal_counted payload_codec message w =
      counted
        (run_marshal (direct_writer api) (payload_codec.marshal message) (wrap_buffer_writer w))

  pub variable_length_encode : PayloadCodec → Message → Method W (Unit {0})
  variable_length_encode payload_codec message = do
    header ← api.malloc max_varint_len32
    n ← marshal_counted payload_codec message
    put_uint32 api header (u32 n)
    api.flush
