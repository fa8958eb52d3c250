-- ===== src/Codec/Packet/Decode.antt =====
-- Decoding with the fixed length and the variable length packet codec (codec/packet) over a stream.
use less.Base.{
  ℕ, ◌+◌, ◌-◌, ◌^◌, ◌<◌, ◌≡◌, sym, ap, ◌∙◌, Outcome, ok, err, panic, hang, arith, pure, take, drop,
  drop-drop, IsReturned,
}
use less.Io.Reader.{Reader, Stream}
use less.Io.Limit.{LimitReader, new_limit_reader, limit_reader, limit_length}
use less.Io.Limit.Laws.{InFrame, Settles, limit_release-end, limit_release-spent, limit_next-ok}
use less.Codec.{Program, run, text, PayloadCodec}
use less.Codec.Frame.{run-Settles}
use less.Codec.Packet.{
  un_marshal_frame, fixed_length_decode, variable_length_decode, max_varint_len32, deferred,
}
use less.Codec.LessCodec.{un_be32}
use less.Codec.Text.{text_codec, text_un_marshal}

module _ {S : Type 0} {api : Reader S} (stream : Stream api) where
  open stream use {view, IsReady, next_law, enough}

  -- The call returned a value or an error, and the stream stands behind `n` bytes, of which none is
  -- owed to it any more.
  pub record Consumed {A : Type 0} (n : ℕ) (s : S) (o : Outcome A × S) : Type 0 where
    pub returned : IsReturned o.0
    pub rest : view o.1 ≡ drop n (view s)
    pub spent : IsReady 0 o.1

  deferred-Consumed :
      {A : Type 0} (limit : ℕ) (s : S) (o : Outcome A × LimitReader S)
      → Settles stream limit (view s) o
      → Consumed limit s (deferred api (pure tt) o)
  unfolding deferred
  deferred-Consumed limit s (ok a, l) h =
      let (l', e, v, r) = limit_release-spent stream limit (view s) l h.inside in
      rw e (record { returned = tt; rest = v; spent = r })
  deferred-Consumed limit s (err x, l) h =
      let (l', e, v, r) = limit_release-spent stream limit (view s) l h.inside in
      rw e (record { returned = tt; rest = v; spent = r })
  deferred-Consumed limit s (panic, l) h = absurd h.returned
  deferred-Consumed limit s (hang, l) h = absurd h.returned

  pub start-InFrame :
      (limit : ℕ) (s : S)
      → limit < 2 ^ 32
      → IsReady limit s
      → InFrame stream limit (view s) (new_limit_reader s limit)
  unfolding new_limit_reader
  start-InFrame limit s small ready =
      let none_yet : limit - limit ≡ 0 = omega arith in
      record {
        bound = small;
        le = omega arith;
        ready = ready;
        at = sym (ap (λ m. drop m (view s)) none_yet);
      }

  pub un_marshal_frame-Consumed :
      {A : Type 0} (p : Program A) (limit : ℕ) (s : S)
      → limit < 2 ^ 32
      → IsReady limit s
      → Consumed limit s (un_marshal_frame api p limit s)
  unfolding un_marshal_frame
  un_marshal_frame-Consumed p limit s small ready =
      deferred-Consumed limit s _
        (run-Settles stream limit (view s) p _ (start-InFrame limit s small ready))

  pub deferred-value :
      {A : Type 0} (limit : ℕ) (s : S) (a : A) (l : LimitReader S)
      → InFrame stream limit (view s) l
      → (deferred api (pure tt) (ok a, l)).0 ≡ ok a
  unfolding deferred
  deferred-value limit s a l h =
      let (l', e, v) = limit_release-end stream limit (view s) l h in rw e

  -- The text codec takes the whole frame.
  pub un_marshal_frame-text :
      (limit : ℕ) (s : S)
      → limit < 2 ^ 32
      → IsReady limit s
      → (un_marshal_frame api text_un_marshal limit s).0 ≡ ok (text (take limit (view s)))
  unfolding un_marshal_frame text_un_marshal run limit_reader limit_length new_limit_reader
  un_marshal_frame-text limit s small ready =
      let start = start-InFrame limit s small ready in
      let (l', e, i, _, _) =
        limit_next-ok stream limit (view s) limit (new_limit_reader s limit) start (omega arith) in
      rw e (deferred-value limit s _ l' i)

  -- Over a stream that is ready for the packet, of fewer than 2 ^ 32 bytes, decoding a fixed length
  -- packet returns, whatever the payload codec does and makes of the bytes,
  -- and leaves the stream exactly behind the packet.
  pub fixed_length_decode-Consumed :
      (c : PayloadCodec) (limit : ℕ) (s : S)
      → limit < 2 ^ 32
      → IsReady limit s
      → Consumed limit s (fixed_length_decode api limit c s)
  unfolding fixed_length_decode
  fixed_length_decode-Consumed c limit s small ready =
      un_marshal_frame-Consumed c.un_marshal limit s small ready

  -- The length that the header of the next variable length packet announces.
  abbrev pub announced : S → ℕ
  announced s = un_be32 (take max_varint_len32 (view s))

  -- The reader behind the header.
  pub record BehindHeader (n : ℕ) (s s' : S) : Type 0 where
    pub header : api.next max_varint_len32 s ≡ (ok (take max_varint_len32 (view s)), s')
    pub body : view s' ≡ drop max_varint_len32 (view s)
    pub ready : IsReady n s'

  pub header-BehindHeader :
      (n : ℕ) (s : S) → IsReady (max_varint_len32 + n) s → (s' : S) × BehindHeader n s s'
  header-BehindHeader n s ready =
      let (s', e, v, r) = next_law (max_varint_len32 + n) max_varint_len32 s ready (omega arith) in
      let left : max_varint_len32 + n - max_varint_len32 ≡ n = omega arith in
      (s', record { header = e; body = v; ready = rw left at r })

  -- Over a stream that is ready for the header and the announced body, of fewer than 2 ^ 32 bytes,
  -- decoding a variable length packet returns, whatever the payload codec does and makes of the
  -- bytes, and leaves the stream exactly behind the header and the announced body.
  pub variable_length_decode-Consumed :
      (c : PayloadCodec) (s : S)
      → announced s < 2 ^ 32
      → IsReady (max_varint_len32 + announced s) s
      → Consumed (max_varint_len32 + announced s) s (variable_length_decode api c s)
  unfolding variable_length_decode
  variable_length_decode-Consumed c s small ready =
      let (s', h) = header-BehindHeader (announced s) s ready in
      let d = un_marshal_frame-Consumed c.un_marshal (announced s) s' small h.ready in
      rw h.header (record {
        returned = d.returned;
        rest =
            d.rest
            ∙ ap (drop (announced s)) h.body
            ∙ drop-drop (announced s) max_varint_len32 (view s);
        spent = d.spent;
      })

  -- With the text codec the message is the announced body.
  pub variable_length_decode-text :
      (s : S)
      → announced s < 2 ^ 32
      → IsReady (max_varint_len32 + announced s) s
      → (variable_length_decode api text_codec s).0
        ≡ ok (text (take (announced s) (drop max_varint_len32 (view s))))
  unfolding variable_length_decode text_codec
  variable_length_decode-text s small ready =
      let (s', h) = header-BehindHeader (announced s) s ready in
      rw h.header (
        un_marshal_frame-text (announced s) s' small h.ready
        ∙ ap (λ v. ok (text (take (announced s) v))) h.body)
