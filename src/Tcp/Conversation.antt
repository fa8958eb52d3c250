-- ===== src/Tcp/Conversation.antt =====
-- Messages that cross a connection one after the other (transport/tcp/std.go, Reader and Writer;
-- internal/trans/trans_handler.go, OnMessage, OnRead, outboundHandler and OnWrite): each message has a
-- reader or a writer of its own, which is released behind it.
use less.Base.{
  ℕ, zero, suc, ◌≤◌, ◌≡◌, refl, sym, ap, ◌∙◌, true, List, [], ◌∷◌, ◌++◌, ◌+◌, Option, none, some,
  Bytes, Outcome, ok, Method, length, map, append_assoc, append-nil, arith, Bool, false, ◌&&◌,
  if◌then◌else◌, ◌⊎◌, inl, inr, subst,
}
use less.Io.Source.{source, pending}
use less.Io.Buffer.{BufferReader, new_buffer_reader, buffer_reader}
use less.Io.Writer.{Sink, be32}
use less.Io.BufferWriter.{BufferWriter, buffer_writer}
use less.Codec.{Message, text}
use less.Codec.Text.{text_codec, text_marshal}
use less.Codec.Packet.{variable_length_encode, variable_length_decode}
use less.Codec.Packet.Encode.{variable_length_encode-frame}
use less.Codec.Packet.RoundTrip.{decode_frame, decode-pending, decode-length}
use less.Channel.{reader}
use less.Trans.{TransHandler, is_serving, on_message, outbound_handler}
use less.Trans.Passing.{Works, with_submitted, on_message-submits, outbound_handler-sends}
use less.Tcp.{Connection, conn_reader, conn_writer}

-- One side of a connection: the net package's end, and the handler that the transport drives.
pub record Side : Type 0 where
  pub conn : Connection
  pub handler : TransHandler

is_ok : Outcome (Unit {0}) → Bool
is_ok (ok a) = true
is_ok _ = false

-- `OnMessage` comes to the call of `Decode`.
unfoldable pub reads : ℕ → TransHandler → Bool
unfolding is_ok
reads id th = is_serving th.status && is_ok (reader (th.lives id).ch)

-- The connection behind a writer that is released.
left_behind : Option Sink → Sink → Sink
left_behind none output = output
left_behind (some s) output = s

module _ (id : ℕ) (decode : Method BufferReader Message) where
  -- A round of the goroutine that reads the channel `id`: what the reader has pulled is gone from the
  -- connection.
  unfoldable pub receive : Side → Outcome (Unit {0}) × Side
  receive side =
      let s = conn_reader side.conn in
      let r = on_message buffer_reader decode id s side.handler in
      (
        r.0,
        record {
          conn = record (side.conn) {
            input = if reads id side.handler then (decode s).1.decorator else side.conn.input;
          };
          handler = r.1;
        },
      )

  -- So many rounds, whatever becomes of each.
  unfoldable pub receive_all : ℕ → Side → Side
  receive_all zero side = side
  receive_all (suc n) side = receive_all n (receive side).1

module _ (id : ℕ) (encode : Message → Method BufferWriter (Unit {0})) where
  unfoldable pub transmit : Message → Side → Outcome (Unit {0}) × Side
  unfolding left_behind
  transmit m side =
      let r = outbound_handler encode id m (conn_writer side.conn) side.handler in
      (
        r.0.0,
        record {
          conn = record (side.conn) { output = left_behind r.0.1.decorator side.conn.output };
          handler = r.1;
        },
      )

  unfoldable pub transmit_all : List Message → Side → List (Outcome (Unit {0})) × Side
  transmit_all [] side = ([], side)
  transmit_all (m ∷ ms) side =
      let first = transmit m side in
      let others = transmit_all ms first.1 in (first.0 ∷ others.0, others.1)

-- The texts fit into the buffers of the writer and of the reader.
abbrev pub AllShort : List Bytes → Type 0
AllShort [] = Unit
AllShort (t ∷ ts) = (length t ≤ 251) × AllShort ts

-- The frames of the texts.
abbrev pub frames : List Bytes → Bytes
frames [] = []
frames (t ∷ ts) = (be32 (length t) ++ (0 ∷ t)) ++ frames ts

-- What the pool was given, with the texts behind it.
abbrev pub with_texts : ℕ → List Bytes → List (ℕ × Message) → List (ℕ × Message)
with_texts id [] submitted = submitted
with_texts id (t ∷ ts) submitted = with_texts id ts ((id, text t) ∷ submitted)

-- The handler whose pool was given the texts too.
abbrev pub with_all_texts : ℕ → List Bytes → TransHandler → TransHandler
with_all_texts id ts th = record th { submitted = with_texts id ts th.submitted }

abbrev decode_text : Method BufferReader Message
decode_text = variable_length_decode buffer_reader text_codec

abbrev encode_text : Message → Method BufferWriter (Unit {0})
encode_text = variable_length_encode buffer_writer text_codec

-- The limit on messages, if there is one, lets everything pass that the first buffer holds.
abbrev pub Passes : TransHandler → Type 0
Passes th = (th.max_receive_message_size ≡ 0) ⊎ (256 ≤ th.max_receive_message_size)

module _ (id : ℕ) where
  reads-Works : (th : TransHandler) → Works id th → reads id th ≡ true
  unfolding reads is_ok
  reads-Works th w =
      (λ i. is_serving (w.up i) && is_ok (reader (th.lives id).ch)) ∙ ap is_ok w.readable

  receive-text :
      (t rest : Bytes) (side : Side)
      → Works id side.handler
      → Passes side.handler
      → length t ≤ 251
      → pending side.conn.input ≡ (be32 (length t) ++ (0 ∷ t)) ++ rest
      → ((receive id decode_text side).0 ≡ ok tt)
        × ((receive id decode_text side).1.handler ≡ with_submitted id (text t) side.handler)
        × (pending (receive id decode_text side).1.conn.input ≡ rest)
  unfolding receive conn_reader
  receive-text t rest side w passes short arrived =
      let cs = side.conn.input.chunks in
      let s = new_buffer_reader (source cs) in
      let size : buffer_reader.length_of (decode_text s).1 ≤ 5 + length t =
        decode-length t rest cs short arrived text_codec in
      let fits : (side.handler.max_receive_message_size ≡ 0)
          ⊎ (buffer_reader.length_of (decode_text s).1 ≤ side.handler.max_receive_message_size) =
        elim passes [ inl e ↦ inl e | inr h ↦ inr (omega (arith, size)) ] in
      let e =
        on_message-submits buffer_reader decode_text id s (text t) side.handler w
          (decode_frame t rest cs short arrived).0 fits in
      (
        ap (λ r. r.0) e,
        ap (λ r. r.1) e,
        ap (λ b. pending (if b then (decode_text s).1.decorator else side.conn.input))
              (reads-Works side.handler w)
            ∙ decode-pending t rest cs short arrived text_codec,
      )

  submitted-Works :
      (m : Message) (th th' : TransHandler)
      → th' ≡ with_submitted id m th
      → Works id th
      → Works id th'
  submitted-Works m th th' e w =
      subst (λ h. Works id h) (sym e)
        (record { up = w.up; readable = w.readable; writeable = w.writeable })

  receive_all-texts :
      (ts : List Bytes) (rest : Bytes) (side : Side)
      → Works id side.handler
      → Passes side.handler
      → AllShort ts
      → pending side.conn.input ≡ frames ts ++ rest
      → let back = receive_all id decode_text (length ts) side in
        (back.handler ≡ with_all_texts id ts side.handler) × (pending back.conn.input ≡ rest)
  unfolding receive_all
  receive_all-texts [] rest side w passes short arrived = (refl, arrived)
  receive_all-texts (t ∷ ts) rest side w passes (short, others) arrived =
      let (_, e, left) =
        receive-text t (frames ts ++ rest) side w passes short
          (arrived ∙ append_assoc (be32 (length t) ++ (0 ∷ t)) (frames ts) rest) in
      let side1 = (receive id decode_text side).1 in
      let (f, g) =
        receive_all-texts ts rest side1 (submitted-Works (text t) side.handler side1.handler e w)
          (subst Passes (sym e) passes) others left in
      (f ∙ ap (with_all_texts id ts) e, g)

  -- The side took these bytes for its connection, which is still open; its handler is as it was.
  record Took (bytes : Bytes) (side side' : Side) : Type 0 where
    still_open : side'.conn.output.open_ ≡ true
    sent : side'.conn.output.sent ≡ side.conn.output.sent ++ bytes
    handler : side'.handler ≡ side.handler

  transmit-text :
      (t : Bytes) (side : Side)
      → Works id side.handler
      → length t ≤ 251
      → side.conn.output.open_ ≡ true
      → ((transmit id encode_text (text t) side).0 ≡ ok tt)
        × Took (be32 (length t) ++ (0 ∷ t)) side (transmit id encode_text (text t) side).1
  unfolding transmit conn_writer left_behind text_codec text_marshal
  transmit-text t side k short up =
      let c = side.conn.output in
      let (w, e, sent) = variable_length_encode-frame c up text_codec (text t) t refl short in
      let out =
        outbound_handler-sends encode_text id (text t) (conn_writer side.conn) w side.handler k e in
      let left : left_behind
            (outbound_handler encode_text id (text t) (conn_writer side.conn)
              side.handler).0.1.decorator
            c
          ≡ record { sent = c.sent ++ (be32 (length t) ++ (0 ∷ t)); open_ = true } =
        ap
          (λ (r : (Outcome (Unit {0}) × BufferWriter) × TransHandler).
            left_behind r.0.1.decorator c)
          out
        ∙ ap (λ d. left_behind d c) sent in
      (
        ap (λ r. r.0.0) out,
        record {
          still_open = ap (λ s. s.open_) left;
          sent = ap (λ s. s.sent) left;
          handler = ap (λ r. r.1) out;
        },
      )

  transmit_all-texts :
      (ts : List Bytes) (side : Side)
      → Works id side.handler
      → AllShort ts
      → side.conn.output.open_ ≡ true
      → ((transmit_all id encode_text (map (λ t. text t) ts) side).0 ≡ map (λ t. ok tt) ts)
        × Took (frames ts) side (transmit_all id encode_text (map (λ t. text t) ts) side).1
  unfolding transmit_all
  transmit_all-texts [] side k short up = (
    refl,
    record { still_open = up; sent = sym (append-nil side.conn.output.sent); handler = refl },
  )
  transmit_all-texts (t ∷ ts) side k (short, others) up =
      let (a, took) = transmit-text t side k short up in
      let side1 = (transmit id encode_text (text t) side).1 in
      let (b, took') =
        transmit_all-texts ts side1 (subst (λ h. Works id h) (sym took.handler) k) others
          took.still_open in
      (
        λ i. a i ∷ b i,
        record {
          still_open = took'.still_open;
          sent =
              took'.sent
              ∙ ap (λ s. s ++ frames ts) took.sent
              ∙ append_assoc side.conn.output.sent (be32 (length t) ++ (0 ∷ t)) (frames ts);
          handler = took'.handler ∙ took.handler;
        },
      )

-- Between two sides whose handlers serve and whose channels are open for reading and writing, with the
-- variable length and the text codec: texts of at most 251 bytes each, written one after the other to
-- an open connection that has sent nothing yet, are all sent without an error. When the bytes sent
-- arrive at the other side in front of others, cut into chunks in any way, and its limit on messages,
-- if it has one, is 256 or more, then as many rounds of its read loop give the goroutine pool exactly
-- the texts, in order, and leave the others to the connection.
pub conversation :
    (i j : ℕ) (ts : List Bytes) (rest : Bytes) (a b : Side)
    → Works i a.handler
    → Works j b.handler
    → Passes b.handler
    → AllShort ts
    → a.conn.output.open_ ≡ true
    → a.conn.output.sent ≡ []
    → let out = transmit_all i encode_text (map (λ t. text t) ts) a in
      let back = receive_all j decode_text (length ts) b in
      pending b.conn.input ≡ out.1.conn.output.sent ++ rest
      → (out.0 ≡ map (λ t. ok tt) ts)
        × (back.handler ≡ with_all_texts j ts b.handler)
        × (pending back.conn.input ≡ rest)
conversation i j ts rest a b works_a works_b passes short up nothing arrived =
    let (sent, took) = transmit_all-texts i ts a works_a short up in
    let (handler, left) =
      receive_all-texts j ts rest b works_b passes short
        (arrived ∙ ap (λ s. s ++ rest) (took.sent ∙ ap (λ s. s ++ frames ts) nothing)) in
    (sent, handler, left)
