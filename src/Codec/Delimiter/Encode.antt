-- ===== src/Codec/Delimiter/Encode.antt =====
-- Encoding with the delimiter packet codec (codec/packet/delimiter.go) into a fresh buffered writer.
use less.Base.{
  ◌+◌, ◌-◌, ◌≤◌, ◌<◌, ◌≡◌, refl, ◌∙◌, true, some, [], ◌++◌, Bytes, ok, arith, length, length-append,
}
use less.Io.Writer.{Sink}
use less.Io.BufferWriter.{BufferWriter, new_buffer_writer, buffer_writer}
use less.Io.BufferWriter.Holds.{Same-trans, new-Holds}
use less.Io.BufferWriter.Sending.{write-Holds, flush-Holds}
use less.Codec.{done, give_up, write, run_marshal, Message, PayloadCodec}
use less.Codec.Delimiter.{DelimiterCodec, delimiter_encode}

module _ (c : Sink) (up : c.open_ ≡ true) (p : PayloadCodec) (m : Message) (body : Bytes)
    (one_write : p.marshal m ≡ write body done give_up) (dc : DelimiterCodec)
    (append_it : dc.auto_append_delimiter ≡ true) where
  -- On an open connection, and with a payload codec that writes the body in one call: a body that
  -- fits into the writer's first buffer with the delimiter, and is not empty with it, is sent with the
  -- delimiter behind it.
  pub delimiter_encode-frame :
      0 < length body + length dc.delimiter
      → length body + length dc.delimiter ≤ 256
      → (w : BufferWriter) × (delimiter_encode buffer_writer dc p m (new_buffer_writer c)
          ≡ (ok tt, w))
        × (w.decorator ≡ some (record { sent = c.sent ++ (body ++ dc.delimiter); open_ = true }))
  unfolding delimiter_encode run_marshal buffer_writer
  delimiter_encode-frame pos le =
      let w0 = new_buffer_writer c in
      let (w1, e1, h1, s1, _) = write-Holds [] body 256 w0 (new-Holds c) (omega arith) in
      let (w2, e2, h2, s2, _) =
        write-Holds body dc.delimiter (256 - length body) w1 h1 (omega arith) in
      let same = Same-trans w0 w1 w2 s1 s2 in
      let (w3, e3, sent) =
        flush-Holds (body ++ dc.delimiter) (256 - length body - length dc.delimiter) w2 c h2
          (omega (arith, length-append {0} body dc.delimiter))
          (same.growable ∙ unfold new_buffer_writer in refl)
          (same.pre ∙ unfold new_buffer_writer in refl)
          (same.decorator ∙ unfold new_buffer_writer in refl) up in
      (w3, rw (one_write, append_it) (rw e1 (rw e2 e3)), sent)
