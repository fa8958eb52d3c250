-- ===== src/Examples/Messages.antt =====
-- Messages and frames at concrete inputs (codec, internal/msg, transport/tcp/std.go).
use less.Base.{
  ℕ, zero, suc, ◌≤◌, ◌<◌, ◌≡◌, refl, true, false, List, [], ◌∷◌, ◌++◌, Bytes, Outcome, ok, err, inr,
  arith, map, append-nil, msg_size_greater_than_max_length,
}
use less.Io.Source.{source, pending}
use less.Io.Buffer.{BufferReader, new_buffer_reader, buffer_reader}
use less.Io.Buffer.Unread.{unread}
use less.Io.Buffer.Stream.{IsReady}
use less.Io.Buffer.Api.{buffer_stream}
use less.Io.Limit.{new_limit_reader, limit_reader}
use less.Io.Writer.{Sink}
use less.Io.BufferWriter.{buffer_writer}
use less.Codec.{run, text, own}
use less.Codec.Text.{text_codec}
use less.Codec.LessCodec.{less_codec, new_message}
use less.Codec.Packet.{variable_length_encode, variable_length_decode}
use less.Codec.Packet.Decode.{Consumed}
use less.Codec.Packet.RoundTrip.{new-IsReady, sent_by}
use less.Codec.Packet.Own
use less.Codec.Packet.Own.{own-round_trip}
use less.Codec.Delimiter.{new_delimiter_codec, delimiter_decode, ends_frame}
use less.Codec.Delimiter.Decode.{
  ends, FirstFrame, body_length, delimiter_decode-first, delimiter_decode-refuses,
}
use less.Codec.Delimiter.RoundTrip
use less.Codec.Delimiter.RoundTrip.{codec, Fits, Alone, delimiter-round_trip}
use less.Channel.{reader, writer}
use less.Trans.Passing.{Works}
use less.Examples.Servers.{handler, two}
use less.Tcp.Conversation.{Side, transmit_all, receive_all, with_all_texts, conversation}

abbrev conn : Sink
conn = record { sent = []; open_ = true }

abbrev hi : Bytes
hi = 104 ∷ 105 ∷ []

abbrev rest : Bytes
rest = 7 ∷ []

abbrev sender : Side
sender = record {
  conn = record { input = source []; output = conn; delegate_closed = 0; closed = 0 };
  handler = handler 2 two;
}

abbrev texts : List Bytes
texts = hi ∷ (33 ∷ []) ∷ []

abbrev written : List (Outcome (Unit {0})) × Side
written =
    transmit_all 4 (variable_length_encode buffer_writer text_codec) (map (λ t. text t) texts)
      sender

-- The side at the other end, with a byte behind what was sent.
abbrev receiver : Side
receiver = record sender {
  conn = record (sender.conn) { input = source ((written.1.conn.output.sent ++ rest) ∷ []) };
}

four-Works : Works 4 (handler 2 two)
unfolding reader writer
four-Works = record { up = refl; readable = refl; writeable = refl }

conversation_example :
    let back = receive_all 2 (variable_length_decode buffer_reader text_codec) 2 receiver in
    (written.0 ≡ ok tt ∷ ok tt ∷ [])
    × (back.handler ≡ with_all_texts 2 texts (handler 2 two))
    × (pending back.conn.input ≡ rest)
unfolding reader writer
conversation_example =
    conversation 4 2 texts rest sender receiver four-Works
      (record { up = refl; readable = refl; writeable = refl }) (inr (omega arith))
      (omega arith, (omega arith, tt)) refl refl (append-nil (written.1.conn.output.sent ++ rest))

own-round_trip_example :
    let sent = Own.encoded conn refl refl text_codec 1 hi rest (omega arith) (omega arith) in
    let got =
      variable_length_decode buffer_reader
        (less_codec text_codec)
        (new_buffer_reader (source ((sent_by sent.1 ++ rest) ∷ []))) in
    (sent.0 ≡ ok tt) × (got.0 ≡ ok (own (new_message 1 hi))) × (unread got.1 ≡ rest)
own-round_trip_example =
    own-round_trip conn refl refl text_codec 1 hi rest (omega arith) (omega arith)
      ((sent_by (Own.encoded conn refl refl text_codec 1 hi rest (omega arith) (omega arith)).1
          ++ rest)
        ∷ [])
      (append-nil _)

-- Lines of at most 16 bytes.
abbrev newline : Bytes
newline = 10 ∷ []

fits : Fits newline 16 hi rest
fits = record {
  some_byte = omega arith;
  buffers = omega arith;
  accepted = omega arith;
  bound = omega arith;
}

alone : Alone newline 16 hi rest
unfolding new_delimiter_codec ends_frame
alone zero a b = absurd (omega arith)
alone (suc zero) a b = refl
alone (suc (suc zero)) a b = refl
alone (suc (suc (suc k))) a b = absurd (omega arith)

delimiter-round_trip_example :
    let sent = RoundTrip.encoded newline 16 hi rest conn refl refl fits alone in
    let got =
      delimiter_decode buffer_reader
        (new_delimiter_codec newline 16 [])
        text_codec
        (new_buffer_reader (source ((sent_by sent.1 ++ rest) ∷ []))) in
    (sent.0 ≡ ok tt) × (got.0 ≡ ok (text hi)) × (unread got.1 ≡ rest)
delimiter-round_trip_example =
    delimiter-round_trip newline 16 hi rest conn refl refl fits alone
      ((sent_by (RoundTrip.encoded newline 16 hi rest conn refl refl fits alone).1 ++ rest) ∷ [])
      (append-nil _)

-- The line `hi`, and a byte behind it.
abbrev line : BufferReader
line = new_buffer_reader (source ((104 ∷ 105 ∷ []) ∷ (10 ∷ 7 ∷ []) ∷ []))

line-IsReady : IsReady 3 line
line-IsReady = new-IsReady 3 _ (omega arith) (omega arith)

line_before :
    (k : ℕ) → 1 ≤ k → k < 3 → ends buffer_stream (codec newline 16 hi rest) k (unread line) ≡ false
unfolding new_delimiter_codec ends_frame new_buffer_reader
line_before zero a b = absurd (omega arith)
line_before (suc zero) a b = refl
line_before (suc (suc zero)) a b = refl
line_before (suc (suc (suc k))) a b = absurd (omega arith)

first_line : FirstFrame buffer_stream (codec newline 16 hi rest) 3 (unread line)
unfolding new_delimiter_codec ends_frame new_buffer_reader
first_line = record {
  some_byte = omega arith;
  within = omega arith;
  before = line_before;
  end = refl;
}

delimiter_decode-first_example :
    let dc = new_delimiter_codec newline 16 [] in
    let o = delimiter_decode buffer_reader dc text_codec line in
    (s : BufferReader) × (unread s ≡ unread line)
    × IsReady 3 s
    × (Consumed buffer_stream 3 line o
        × (o.0
            ≡ (run
                (limit_reader buffer_reader)
                text_codec.un_marshal
                (new_limit_reader s (body_length dc 3))).0))
unfolding buffer_reader
delimiter_decode-first_example =
    delimiter_decode-first buffer_stream (new_delimiter_codec newline 16 []) text_codec 3 line
      (unfold new_delimiter_codec in omega arith) line-IsReady first_line

-- A codec whose lines are at most two bytes long meets `hi` without its end.
no_line :
    (k : ℕ)
    → 1 ≤ k
    → k ≤ (new_delimiter_codec newline 2 []).max_length
    → ends buffer_stream (new_delimiter_codec newline 2 []) k (unread line) ≡ false
unfolding new_delimiter_codec ends_frame new_buffer_reader
no_line zero a b = absurd (omega arith)
no_line (suc zero) a b = refl
no_line (suc (suc zero)) a b = refl
no_line (suc (suc (suc k))) a b = absurd (omega arith)

delimiter_decode-refuses_example :
    (s : BufferReader) × (delimiter_decode buffer_reader
        (new_delimiter_codec newline 2 [])
        text_codec
        line
      ≡ (err msg_size_greater_than_max_length, s))
    × (unread s ≡ unread line)
unfolding buffer_reader
delimiter_decode-refuses_example =
    delimiter_decode-refuses buffer_stream (new_delimiter_codec newline 2 []) text_codec line
      (unfold new_delimiter_codec in new-IsReady 2 _ (omega arith) (omega arith)) no_line
