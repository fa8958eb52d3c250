-- ===== src/Codec/Delimiter/RoundTrip.antt =====
-- A text sent with the delimiter codec through the buffered writer and received through the buffered
-- reader (codec/packet/delimiter.go, codec/payload/text.go, pkg/io).
use less.Base.{
  ℕ, ◌+◌, ◌-◌, ◌^◌, ◌≤◌, ◌<◌, ◌≡◌, refl, sym, ap, ◌∙◌, true, false, List, [], ◌∷◌, ◌++◌, Bytes,
  Outcome, ok, arith, leb, le→leb, length, take, drop, length-append, take_append_all,
  drop_append_all, take-append_le, append_assoc, subst, ==_iff, ◌==◌,
}
use less.Io.Source.{source, flatten}
use less.Io.Reader.{Reader, Stream}
use less.Io.Buffer.{BufferReader, new_buffer_reader, buffer_reader}
use less.Io.Buffer.Unread.{unread}
use less.Io.Buffer.Stream.{IsReady}
use less.Io.Buffer.Api.{buffer_stream}
use less.Io.Limit.{new_limit_reader, limit_reader, limit_length}
use less.Io.Limit.Laws.{limit_next-ok}
use less.Io.Writer.{Sink}
use less.Io.BufferWriter.{BufferWriter, new_buffer_writer, buffer_writer}
use less.Codec.{run, text}
use less.Codec.Text.{text_codec, text_marshal, text_un_marshal}
use less.Codec.Packet.Decode.{start-InFrame}
use less.Codec.Packet.RoundTrip.{new-IsReady, sent_by, sent_to}
use less.Codec.Delimiter.{
  DelimiterCodec, new_delimiter_codec, delimiter_encode, delimiter_decode, ends_frame, bytes_eq,
}
use less.Codec.Delimiter.Slack.{with_slack}
use less.Codec.Delimiter.Decode.{ends, FirstFrame, delimiter_decode-first}
use less.Codec.Delimiter.Encode.{delimiter_encode-frame}

-- The text codec takes the whole of a frame.
run-text :
    {S : Type 0} {api : Reader S} (stream : Stream api) (limit : ℕ) (s : S)
    → limit < 2 ^ 32
    → stream.IsReady limit s
    → (run (limit_reader api) text_un_marshal (new_limit_reader s limit)).0
      ≡ ok (text (take limit (stream.view s)))
unfolding text_un_marshal run limit_reader limit_length new_limit_reader
run-text stream limit s small ready =
    let start = start-InFrame stream limit s small ready in
    let (l', e, _, _, _) =
      limit_next-ok stream limit (stream.view s) limit (new_limit_reader s limit) start
        (omega arith) in
    rw e refl

bytes_eq_refl : (bs : Bytes) → bytes_eq bs bs ≡ true
bytes_eq_refl [] = refl
bytes_eq_refl (b ∷ bs) =
    let same : (b == b) ≡ true = (==_iff b b).1 refl in rw same (bytes_eq_refl bs)

module _ (delimiter : Bytes) (max_length : ℕ) (body rest : Bytes) where
  abbrev pub codec : DelimiterCodec
  codec = new_delimiter_codec delimiter max_length []

  abbrev size : ℕ
  size = length body + length delimiter

  -- The frame with its delimiter ends in it.
  ends-all : ends buffer_stream codec size (body ++ (delimiter ++ rest)) ≡ true
  unfolding new_delimiter_codec ends_frame
  ends-all =
      let frame : take size (body ++ (delimiter ++ rest)) ≡ body ++ delimiter =
        ap (take size) (sym (append_assoc body delimiter rest))
        ∙ take_append_all size (body ++ delimiter) rest (sym (length-append body delimiter)) in
      let long : leb (length delimiter) (length (body ++ delimiter)) ≡ true =
        le→leb _ _ (omega (arith, length-append {0} body delimiter)) in
      let cut : size - length delimiter ≡ length body = omega arith in
      let tail : drop (size - length delimiter) (body ++ delimiter) ≡ delimiter =
        ap (λ k. drop k (body ++ delimiter)) cut
        ∙ drop_append_all (length body) body delimiter refl in
      rw frame (rw (long, tail) (bytes_eq_refl delimiter))

  -- No shorter part of the frame ends in the delimiter.
  abbrev pub Alone : Type 0
  Alone = (k : ℕ) → 1 ≤ k → k < size → ends buffer_stream codec k (body ++ delimiter) ≡ false

  -- Sizes that the first buffers of the writer and of the reader hold, and that the codec accepts.
  pub record Fits : Type 0 where
    pub some_byte : 0 < size
    pub buffers : size ≤ 256
    pub accepted : size ≤ max_length
    pub bound : max_length < 2 ^ 32

  ends-front :
      (k : ℕ)
      → k ≤ size
      → ends buffer_stream codec k (body ++ (delimiter ++ rest))
        ≡ ends buffer_stream codec k (body ++ delimiter)
  ends-front k le =
      ap (λ b. ends_frame buffer_reader codec k b)
        (ap (take k) (sym (append_assoc body delimiter rest))
          ∙ take-append_le k (body ++ delimiter) rest
              (omega (arith, length-append {0} body delimiter)))

  frame_first : Fits → Alone → FirstFrame buffer_stream codec size (body ++ (delimiter ++ rest))
  frame_first f alone = record {
    some_byte = f.some_byte;
    within = unfold new_delimiter_codec in f.accepted;
    before = λ k a b. ends-front k (omega (arith, b)) ∙ alone k a b;
    end = ends-all;
  }

  module _ (fits : Fits) (alone : Alone) (cs : List Bytes)
      (arrived : flatten cs ≡ body ++ (delimiter ++ rest)) where
    abbrev r : BufferReader
    r = new_buffer_reader (source cs)

    unread_new : unread r ≡ body ++ (delimiter ++ rest)
    unfolding new_buffer_reader
    unread_new = arrived

    IsReady-new : IsReady size r
    IsReady-new = new-IsReady size (source cs) fits.buffers (
        omega (
          arith,
          ap length arrived,
          length-append {0} body (delimiter ++ rest),
          length-append {0} delimiter rest,
        ))

    text-value :
        (s : BufferReader)
        → unread s ≡ unread r
        → IsReady size s
        → (run (limit_reader buffer_reader) text_un_marshal (new_limit_reader s (length body))).0
          ≡ ok (text body)
    unfolding buffer_reader
    text-value s same ready =
        run-text (with_slack buffer_stream (length delimiter)) (length body) s
          (omega (arith, fits.accepted, fits.bound)) ready
        ∙ ap (λ v. ok (text (take (length body) v))) (same ∙ unread_new)
        ∙ ap (λ v. ok (text v)) (take_append_all (length body) body (delimiter ++ rest) refl)

    first : FirstFrame buffer_stream codec size (unread r)
    first = subst (FirstFrame buffer_stream codec size) (sym unread_new) (frame_first fits alone)

    pub decode_frame :
        ((delimiter_decode buffer_reader codec text_codec r).0 ≡ ok (text body))
        × (unread (delimiter_decode buffer_reader codec text_codec r).1 ≡ rest)
    unfolding text_codec new_delimiter_codec buffer_reader
    decode_frame =
        let (s, same, ready, (taken, value)) =
          delimiter_decode-first buffer_stream codec text_codec size r fits.bound IsReady-new
            first in
        let stripped : size - length delimiter ≡ length body = omega arith in
        (
          value
              ∙ ap
                  (λ n. (run (limit_reader buffer_reader) text_un_marshal (new_limit_reader s n)).0)
                  stripped
              ∙ text-value s same ready,
          taken.rest
              ∙ ap (drop size) unread_new
              ∙ ap (drop size) (sym (append_assoc body delimiter rest))
              ∙ drop_append_all size (body ++ delimiter) rest (sym (length-append body delimiter)),
        )

  module _ (c : Sink) (up : c.open_ ≡ true) (nothing : c.sent ≡ []) (fits : Fits)
      (alone : Alone) where
    -- The writer after the text was encoded.
    pub encoded : Outcome (Unit {0}) × BufferWriter
    encoded = delimiter_encode buffer_writer codec text_codec (text body) (new_buffer_writer c)

    pub encoded_frame : (encoded.0 ≡ ok tt) × (sent_by encoded.1 ≡ body ++ delimiter)
    unfolding encoded text_codec text_marshal new_delimiter_codec
    encoded_frame =
        let (w, e, sent) =
          delimiter_encode-frame c up text_codec (text body) body refl codec refl fits.some_byte
            fits.buffers in
        (
          ap (λ o. o.0) e,
          ap (λ o. sent_by o.1) e ∙ ap sent_to sent ∙ ap (λ t. t ++ (body ++ delimiter)) nothing,
        )

    -- A text in which the delimiter does not occur, nor across its end, encoded with the delimiter
    -- and the text codec on a connection that has sent nothing yet, at most 256 bytes and the
    -- codec's maximal length with its delimiter, is sent without an error; and when the bytes sent
    -- arrive in front of others, cut into chunks in any way, decoding returns the text and leaves
    -- the others unread.
    pub delimiter-round_trip :
        (cs : List Bytes)
        → flatten cs ≡ sent_by encoded.1 ++ rest
        → (encoded.0 ≡ ok tt)
          × ((delimiter_decode buffer_reader codec text_codec (new_buffer_reader (source cs))).0
              ≡ ok (text body))
          × (unread
                (delimiter_decode buffer_reader codec text_codec (new_buffer_reader (source cs))).1
              ≡ rest)
    delimiter-round_trip cs arrived =
        let (e, sent) = encoded_frame in
        let d =
          decode_frame fits alone cs
            (arrived ∙ ap (λ t. t ++ rest) sent ∙ append_assoc body delimiter rest) in
        (e, d.0, d.1)
