-- ===== src/Codec/Packet/RoundTrip.antt =====
-- A text sent as a variable length packet through the buffered writer and received through the
-- buffered reader (codec/packet/var_length.go, codec/payload/text.go, pkg/io).
use less.Base.{
  ℕ, ◌+◌, ◌^◌, ◌≤◌, ◌<◌, ◌≡◌, refl, sym, ap, ◌∙◌, true, inl, Option, none, some, List, [], ◌∷◌,
  ◌++◌, Bytes, Outcome, ok, arith, length, take, drop, length-append, take_append_all,
  drop_append_all, drop-drop, subst,
}
use less.Io.Source.{Source, source, flatten, pending}
use less.Io.Buffer.{BufferReader, length_of, new_buffer_reader, buffer_reader}
use less.Io.Buffer.Unread.{unread}
use less.Io.Buffer.Stream.{IsReady}
use less.Io.Buffer.Api.{buffer_stream, exact_stream, exact-pending}
use less.Io.Writer.{Sink, be32}
use less.Io.BufferWriter.{BufferWriter, new_buffer_writer, buffer_writer}
use less.Codec.{text, PayloadCodec}
use less.Codec.Text.{text_codec, text_marshal}
use less.Codec.LessCodec.{un_be32}
use less.Codec.Packet.{variable_length_encode, variable_length_decode, max_varint_len32}
use less.Codec.Packet.Decode.{
  Consumed, variable_length_decode-Consumed, variable_length_decode-text,
}
use less.Codec.Packet.Encode.{variable_length_encode-frame}

pub un_be32-be32 : (v : ℕ) → v < 2 ^ 32 → un_be32 (be32 v) ≡ v
un_be32-be32 v h = omega arith

-- A fresh reader is ready for what its first buffer can hold.
pub new-IsReady :
    (k : ℕ) (s : Source) → k ≤ 256 → k ≤ length (pending s) → IsReady k (new_buffer_reader s)
unfolding new_buffer_reader
new-IsReady k s room enough = record {
  is_valid = record {
    ordered = omega arith;
    within = omega arith;
    tight = λ _. refl;
    kept = inl (omega arith);
  };
  fits = omega arith;
  enough = enough;
}

-- What the connection behind a writer has taken.
abbrev pub sent_to : Option Sink → Bytes
sent_to none = []
sent_to (some c) = c.sent

abbrev pub sent_by : BufferWriter → Bytes
sent_by w = sent_to w.decorator

-- A frame at the head of what arrives, cut into chunks in any way.
module _ (body rest : Bytes) (cs : List Bytes) (small : length body ≤ 251)
    (arrived : flatten cs ≡ be32 (length body) ++ (0 ∷ (body ++ rest))) where
  abbrev pub r : BufferReader
  r = new_buffer_reader (source cs)

  pub unread_new : unread r ≡ be32 (length body) ++ (0 ∷ (body ++ rest))
  unfolding new_buffer_reader
  unread_new = arrived

  announced_new : un_be32 (take max_varint_len32 (unread r)) ≡ length body
  announced_new =
      ap (λ v. un_be32 (take max_varint_len32 v)) unread_new
      ∙ un_be32-be32 (length body) (omega arith)

  body_new : drop max_varint_len32 (unread r) ≡ body ++ rest
  body_new = ap (drop max_varint_len32) unread_new

  IsReady-new : IsReady (max_varint_len32 + un_be32 (take max_varint_len32 (unread r))) r
  IsReady-new =
      new-IsReady _ (source cs) (omega (arith, announced_new))
        (omega (arith, announced_new, ap length arrived, length-append {0} body rest))

  small_new : un_be32 (take max_varint_len32 (unread r)) < 2 ^ 32
  small_new = omega (arith, announced_new)

  -- Whatever the payload codec makes of the frame, the others are left unread.
  pub decode-rest : (c : PayloadCodec) → unread (variable_length_decode buffer_reader c r).1 ≡ rest
  unfolding buffer_reader
  decode-rest c =
      (variable_length_decode-Consumed buffer_stream c r small_new IsReady-new).rest
      ∙ ap (λ k. drop (max_varint_len32 + k) (unread r)) announced_new
      ∙ sym (drop-drop (length body) max_varint_len32 (unread r))
      ∙ ap (drop (length body)) body_new
      ∙ drop_append_all (length body) body rest refl

  abbrev top : ℕ
  top = max_varint_len32 + un_be32 (take max_varint_len32 (unread r))

  decode-exact :
      (c : PayloadCodec)
      → Consumed (exact_stream top) top r (variable_length_decode buffer_reader c r)
  unfolding buffer_reader
  decode-exact c = variable_length_decode-Consumed (exact_stream top) c r small_new (record {
    ready = IsReady-new;
    ahead = unfold new_buffer_reader in omega arith;
    place = unfold new_buffer_reader in omega arith;
  })

  -- They are the connection's: the reader has pulled none of them.
  pub decode-pending :
      (c : PayloadCodec) → pending (variable_length_decode buffer_reader c r).1.decorator ≡ rest
  unfolding buffer_reader
  decode-pending c = sym (exact-pending top _ (decode-exact c).spent) ∙ decode-rest c

  -- The reader's length is that of the frame at most.
  pub decode-length :
      (c : PayloadCodec)
      → buffer_reader.length_of (variable_length_decode buffer_reader c r).1
        ≤ max_varint_len32 + length body
  unfolding buffer_reader length_of
  decode-length c = let e = (decode-exact c).spent in omega (arith, e.ahead, e.place, announced_new)

  pub IsReady-size : IsReady (max_varint_len32 + length body) r
  IsReady-size = subst (λ k. IsReady (max_varint_len32 + k) r) announced_new IsReady-new

  pub decode_frame :
      ((variable_length_decode buffer_reader text_codec r).0 ≡ ok (text body))
      × (unread (variable_length_decode buffer_reader text_codec r).1 ≡ rest)
  unfolding buffer_reader
  decode_frame = (
    variable_length_decode-text buffer_stream r small_new IsReady-new
        ∙ ap (λ k. ok (text (take k (drop max_varint_len32 (unread r))))) announced_new
        ∙ ap (λ v. ok (text (take (length body) v))) body_new
        ∙ ap (λ v. ok (text v)) (take_append_all (length body) body rest refl),
    decode-rest text_codec,
  )

module _ (c : Sink) (up : c.open_ ≡ true) (nothing : c.sent ≡ []) (body rest : Bytes)
    (small : length body ≤ 251) where
  -- The writer after a text was encoded as a variable length packet.
  pub encoded : Outcome (Unit {0}) × BufferWriter
  encoded = variable_length_encode buffer_writer text_codec (text body) (new_buffer_writer c)

  pub encoded_frame : (encoded.0 ≡ ok tt) × (sent_by encoded.1 ≡ be32 (length body) ++ (0 ∷ body))
  unfolding encoded text_codec text_marshal
  encoded_frame =
      let (w, e, sent) = variable_length_encode-frame c up text_codec (text body) body refl small in
      (
        ap (λ o. o.0) e,
        ap (λ o. sent_by o.1) e
            ∙ ap sent_to sent
            ∙ ap (λ t. t ++ (be32 (length body) ++ (0 ∷ body))) nothing,
      )

  -- A text of at most 251 bytes, encoded with the variable length and the text codec on a connection
  -- that has sent nothing yet, is sent without an error; and when the bytes sent arrive in front of
  -- others, cut into chunks in any way, decoding returns the text and leaves the others unread.
  pub variable_length-round_trip :
      (cs : List Bytes)
      → flatten cs ≡ sent_by encoded.1 ++ rest
      → (encoded.0 ≡ ok tt)
        × ((variable_length_decode buffer_reader text_codec (new_buffer_reader (source cs))).0
            ≡ ok (text body))
        × (unread
              (variable_length_decode buffer_reader text_codec (new_buffer_reader (source cs))).1
            ≡ rest)
  variable_length-round_trip cs arrived =
      let (e, sent) = encoded_frame in
      let d = decode_frame body rest cs small (arrived ∙ ap (λ t. t ++ rest) sent) in (e, d.0, d.1)
