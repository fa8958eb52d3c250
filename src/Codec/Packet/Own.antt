-- ===== src/Codec/Packet/Own.antt =====
-- One of the framework's own messages sent as a variable length packet through the buffered writer and
-- received through the buffered reader (codec/packet/var_length.go, internal/msg/codec.go, pkg/io).
use less.Base.{
  ℕ, ◌+◌, ◌-◌, ◌^◌, ◌≤◌, ◌<◌, ◌≡◌, refl, sym, ap, ◌∙◌, true, List, ◌∷◌, [], ◌++◌, Bytes, Outcome,
  ok, arith, length, append_assoc, subst,
}
use less.Io.Source.{source, flatten}
use less.Io.Buffer.{new_buffer_reader, buffer_reader}
use less.Io.Buffer.Unread.{unread}
use less.Io.Buffer.Stream.{IsReady}
use less.Io.Buffer.Api.{buffer_stream}
use less.Io.Writer.{Sink, be32, be16, put_uint32, put_uint16}
use less.Io.BufferWriter
use less.Io.BufferWriter.{
  BufferWriter, new_buffer_writer, buffer_writer, direct_writer, direct_write, direct_malloc,
  wrap_buffer_writer,
}
use less.Io.BufferWriter.Holds.{Holds, Same-trans, reserved, malloc-Holds, store_end-Holds}
use less.Io.BufferWriter.Sending.{write-Holds}
use less.Codec.{run_marshal, own, LessMessage, PayloadCodec}
use less.Codec.LessCodec.{less_codec, less_marshal, new_message, magic_number}
use less.Codec.LessCodec.Decode.{wire, variable_length_decode-own}
use less.Codec.Packet.{marshal_counted, variable_length_encode, variable_length_decode}
use less.Codec.Packet.Encode.{Marshals, Marshals-Sends}
use less.Codec.Packet.RoundTrip.{decode-rest, IsReady-size, unread_new, sent_by, sent_to}

module _ (c : PayloadCodec) (msg_type : ℕ) (body : Bytes) where
  abbrev pub m : LessMessage
  m = new_message msg_type body

  own-Marshals : Marshals (less_codec c) (own m) (wire msg_type body)
  unfolding less_codec less_marshal new_message marshal_counted run_marshal direct_writer
      direct_write direct_malloc wrap_buffer_writer buffer_writer put_uint32 put_uint16
  own-Marshals front k w h le =
      let magic = be32 magic_number in
      let (w1, e1, h1, s1, a1) = malloc-Holds front k w h 4 (omega arith) in
      let (h2, s2, a2) =
        store_end-Holds front magic (k - 4) w1 (reserved front k w h 4) h1 (sym a1) refl in
      let w2 = BufferWriter.store (reserved front k w h 4) magic w1 in
      let (w3, e3, h3, s3, a3) = malloc-Holds (front ++ magic) (k - 4) w2 h2 2 (omega arith) in
      let r3 = reserved (front ++ magic) (k - 4) w2 h2 2 in
      let (h4, s4, a4) =
        store_end-Holds (front ++ magic) (be16 msg_type) (k - 4 - 2) w3 r3 h3 (sym a3) refl in
      let w4 = BufferWriter.store r3 (be16 msg_type) w3 in
      let (w5, e5, h5, s5, a5) =
        write-Holds ((front ++ magic) ++ be16 msg_type) body (k - 4 - 2) w4 h4 (omega arith) in
      let all : ((front ++ magic) ++ be16 msg_type) ++ body ≡ front ++ wire msg_type body =
        append_assoc (front ++ magic) (be16 msg_type) body
        ∙ append_assoc front magic (be16 msg_type ++ body) in
      let room : k - 4 - 2 - length body ≡ k - length (wire msg_type body) = omega arith in
      let total : 6 + length body ≡ length (wire msg_type body) = omega arith in
      (
        w5,
        rw (e1, e3, e5) (ap (λ n. (ok n, w5)) total),
        subst (λ n. Holds (front ++ wire msg_type body) n w5) room
            (subst (λ out. Holds out (k - 4 - 2 - length body) w5) all h5),
        Same-trans w w1 w5 s1
            (Same-trans w1 w2 w5 s2 (Same-trans w2 w3 w5 s3 (Same-trans w3 w4 w5 s4 s5))),
        a5 ∙ a4 ∙ a3 ∙ a2 ∙ a1,
      )

module _ (c : Sink) (up : c.open_ ≡ true) (nothing : c.sent ≡ []) (p : PayloadCodec) (msg_type : ℕ)
    (body rest : Bytes) (small : msg_type < 2 ^ 16) (fits : 6 + length body ≤ 251) where
  -- The writer after the message was encoded.
  pub encoded : Outcome (Unit {0}) × BufferWriter
  encoded =
      variable_length_encode buffer_writer (less_codec p) (own (m p msg_type body))
        (new_buffer_writer c)

  abbrev frame : Bytes
  frame = be32 (length (wire msg_type body)) ++ (0 ∷ wire msg_type body)

  pub encoded_frame : (encoded.0 ≡ ok tt) × (sent_by encoded.1 ≡ frame)
  unfolding encoded
  encoded_frame =
      let (w, e, sent) =
        Marshals-Sends c up (less_codec p) (own (m p msg_type body)) (wire msg_type body)
          (own-Marshals p msg_type body) (omega arith) in
      (ap (λ o. o.0) e, ap (λ o. sent_by o.1) e ∙ ap sent_to sent ∙ ap (λ t. t ++ frame) nothing)

  -- A message of the framework's own, of a type that fits into two bytes and at most 251 bytes long
  -- with its magic number and its type, encoded with the variable length codec on a connection that
  -- has sent nothing yet, is sent without an error, whatever the codec for the other messages; and
  -- when the bytes sent arrive in front of others, cut into chunks in any way, decoding returns the
  -- message and leaves the others unread.
  pub own-round_trip :
      (cs : List Bytes)
      → flatten cs ≡ sent_by encoded.1 ++ rest
      → let got =
          variable_length_decode buffer_reader (less_codec p) (new_buffer_reader (source cs)) in
        (encoded.0 ≡ ok tt) × (got.0 ≡ ok (own (new_message msg_type body))) × (unread got.1 ≡ rest)
  unfolding new_message buffer_reader
  own-round_trip cs arrived =
      let (e, sent) = encoded_frame in
      let total : 6 + length body ≡ length (wire msg_type body) = omega arith in
      let le : length (wire msg_type body) ≤ 251 = omega arith in
      let arrived' : flatten cs ≡ frame ++ rest = arrived ∙ ap (λ t. t ++ rest) sent in
      (
        e,
        variable_length_decode-own buffer_stream p msg_type body rest small
            (new_buffer_reader (source cs)) (omega arith)
            (subst (λ n. IsReady (5 + n) (new_buffer_reader (source cs))) (sym total)
              (IsReady-size (wire msg_type body) rest cs le arrived'))
            (unread_new (wire msg_type body) rest cs le arrived'
              ∙ ap (λ n. be32 n ++ (0 ∷ (wire msg_type body ++ rest))) (sym total)),
        decode-rest (wire msg_type body) rest cs le arrived' (less_codec p),
      )
