-- ===== src/Codec/Packet/JsonRoundTrip.antt =====
-- A message sent as JSON in a variable length packet through the buffered writer and received through
-- the buffered reader (codec/packet/var_length.go, codec/payload/json.go, pkg/io).
use less.Base.{
  ℕ, ◌^◌, ◌≤◌, ◌<◌, ◌≡◌, refl, ap, ◌∙◌, true, List, [], ◌∷◌, ◌++◌, Option, Bytes, Outcome, ok, inr,
  arith, pure, length, take, take_append_all, drop,
}
use less.Io.Reader.{Reader, Stream}
use less.Io.Source.{source, flatten}
use less.Io.Buffer.{BufferReader, new_buffer_reader, buffer_reader}
use less.Io.Buffer.Unread.{unread}
use less.Io.Buffer.Api.{buffer_stream}
use less.Io.Limit.{new_limit_reader, limit_reader, limit_length}
use less.Io.Limit.Laws.{limit_next-ok}
use less.Io.Writer.{Sink, be32}
use less.Io.BufferWriter.{BufferWriter, new_buffer_writer, buffer_writer}
use less.Codec.{run, Message}
use less.Codec.Json.{Json, json_codec, json_marshal, json_un_marshal, parsed}
use less.Codec.Packet.{
  un_marshal_frame, deferred, variable_length_encode, variable_length_decode, max_varint_len32,
}
use less.Codec.Packet.Decode.{start-InFrame, deferred-value, header-BehindHeader}
use less.Codec.Packet.Encode.{variable_length_encode-frame}
use less.Codec.Packet.RoundTrip.{
  decode-rest, IsReady-size, unread_new, un_be32-be32, sent_by, sent_to,
}
use less.Codec.LessCodec.{un_be32}

module _ (json : Json) (msg_type : Option ℕ) (m m' : Message) (bs : Bytes)
    (writes : json.marshal m ≡ inr bs) (reads : json.unmarshal msg_type bs ≡ inr m')
    (short : length bs ≤ 251) where
  frame-json :
      {S : Type 0} {api : Reader S} (stream : Stream api) (limit : ℕ) (s : S)
      → limit < 2 ^ 32
      → stream.IsReady limit s
      → take limit (stream.view s) ≡ bs
      → (un_marshal_frame api (json_un_marshal json msg_type) limit s).0 ≡ ok m'
  unfolding un_marshal_frame json_un_marshal run limit_reader limit_length new_limit_reader parsed
  frame-json {api = api} stream limit s small ready is =
      let start = start-InFrame stream limit s small ready in
      let (l', e, i, _, _) =
        limit_next-ok stream limit (stream.view s) limit (new_limit_reader s limit) start
          (omega arith) in
      let made : parsed json (json.unmarshal msg_type (take limit (stream.view s)))
          ≡ parsed json (inr m') =
        ap (λ b. parsed json (json.unmarshal msg_type b)) is ∙ ap (parsed json) reads in
      rw e (
        ap (λ p. (deferred api (pure tt) (run (limit_reader api) p l')).0) made
        ∙ deferred-value stream limit s m' l' i)

  module _ (rest : Bytes) (cs : List Bytes)
      (arrived : flatten cs ≡ be32 (length bs) ++ (0 ∷ (bs ++ rest))) where
    abbrev r : BufferReader
    r = new_buffer_reader (source cs)

    decode-json : (variable_length_decode buffer_reader (json_codec json msg_type) r).0 ≡ ok m'
    unfolding variable_length_decode json_codec buffer_reader
    decode-json =
        let (s', h) =
          header-BehindHeader buffer_stream (length bs) r (IsReady-size bs rest cs short arrived) in
        let at = unread_new bs rest cs short arrived in
        let stated : un_be32 (take max_varint_len32 (unread r)) ≡ length bs =
          ap (λ v. un_be32 (take max_varint_len32 v)) at ∙ un_be32-be32 (length bs) (omega arith) in
        let body : take (length bs) (unread s') ≡ bs =
          ap (take (length bs)) (h.body ∙ ap (drop max_varint_len32) at)
          ∙ take_append_all (length bs) bs rest refl in
        rw h.header (
          ap (λ k. (un_marshal_frame buffer_reader (json_un_marshal json msg_type) k s').0) stated
          ∙ frame-json buffer_stream (length bs) s' (omega arith) h.ready body)

  module _ (c : Sink) (up : c.open_ ≡ true) (nothing : c.sent ≡ []) (rest : Bytes) where
    -- The writer after the message was encoded.
    pub encoded : Outcome (Unit {0}) × BufferWriter
    encoded =
        variable_length_encode buffer_writer (json_codec json msg_type) m (new_buffer_writer c)

    pub encoded_frame : (encoded.0 ≡ ok tt) × (sent_by encoded.1 ≡ be32 (length bs) ++ (0 ∷ bs))
    unfolding encoded json_codec json_marshal
    encoded_frame =
        let (w, e, sent) =
          variable_length_encode-frame c up (json_codec json msg_type) m bs (rw writes refl)
            short in
        (
          ap (λ o. o.0) e,
          ap (λ o. sent_by o.1) e
              ∙ ap sent_to sent
              ∙ ap (λ t. t ++ (be32 (length bs) ++ (0 ∷ bs))) nothing,
        )

    -- A message that json.Marshal turns into at most 251 bytes, sent in a variable length packet on an
    -- open connection that has sent nothing yet, is sent without an error; and when the bytes sent
    -- arrive in front of others, cut into chunks in any way, decoding returns what json.Unmarshal
    -- makes of the bytes for the codec's message type, and leaves the others unread.
    pub json-round_trip :
        (cs : List Bytes)
        → flatten cs ≡ sent_by encoded.1 ++ rest
        → let got =
            variable_length_decode buffer_reader
              (json_codec json msg_type)
              (new_buffer_reader (source cs)) in
          (encoded.0 ≡ ok tt) × (got.0 ≡ ok m') × (unread got.1 ≡ rest)
    json-round_trip cs arrived =
        let (e, sent) = encoded_frame in
        let arrived' = arrived ∙ ap (λ t. t ++ rest) sent in
        (
          e,
          decode-json rest cs arrived',
          decode-rest bs rest cs short arrived' (json_codec json msg_type),
        )
