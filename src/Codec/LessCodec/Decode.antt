-- ===== src/Codec/LessCodec/Decode.antt =====
-- Reading one of the framework's own messages (internal/msg/codec.go, UnMarshal).
use less.Base.{
  ℕ, ◌+◌, ◌-◌, ◌^◌, ◌<◌, ◌≡◌, refl, ap, ◌∙◌, false, ◌∷◌, ◌++◌, Bytes, Outcome, ok, err, panic, hang,
  pure, subst, arith, ltb, ge→ltb, length, take, drop, take_append_all,
}
use less.Io.Reader.{Reader, Stream}
use less.Io.Limit.{LimitReader, new_limit_reader, limit_reader, limit_length}
use less.Io.Limit.Laws.{InFrame, Settles, limit_next-ok, limit_skip-ok, limit_peek-ok}
use less.Io.Writer.{be32, be16}
use less.Codec.{run, own, PayloadCodec}
use less.Codec.Frame.{run-Settles}
use less.Codec.Packet.{un_marshal_frame, variable_length_decode, deferred}
use less.Codec.Packet.Decode.{deferred-value, start-InFrame, header-BehindHeader, announced}
use less.Codec.LessCodec.{less_codec, less_un_marshal, less_body, magic_number, un_be16, un_be32}

-- A message as it is sent.
abbrev pub wire : ℕ → Bytes → Bytes
wire msg_type body = be32 magic_number ++ (be16 msg_type ++ body)

un_be32-be32 : (v : ℕ) → v < 2 ^ 32 → un_be32 (be32 v) ≡ v
un_be32-be32 v h = omega arith

un_be16-be16 : (v : ℕ) → v < 2 ^ 16 → un_be16 (be16 v) ≡ v
un_be16-be16 v h = omega arith

module _ {S : Type 0} {api : Reader S} (stream : Stream api) (c : PayloadCodec) (msg_type : ℕ)
    (body rest : Bytes) (small : msg_type < 2 ^ 16) where
  open stream use {view, IsReady}

  abbrev size : ℕ
  size = 6 + length body

  abbrev bytes : Bytes
  bytes = wire msg_type body ++ rest

  abbrev In : LimitReader S → Type 0
  In l = InFrame stream size bytes l

  -- Behind the magic number.
  body-value :
      (l : LimitReader S)
      → In l
      → l.remain ≡ 2 + length body
      → l.total ≡ size
      → (run (limit_reader api) less_body l).0
        ≡ ok (own (record { magic = magic_number; msg_type = msg_type; body = body }))
  unfolding run limit_reader less_body limit_length
  body-value l i remain total =
      let (l1, e1, i1, r1, t1) = limit_next-ok stream size bytes 2 l i (omega (arith, remain)) in
      let (l2, e2, i2, r2, t2) =
        limit_next-ok stream size bytes (l1.total - 4 - 2) l1 i1
          (omega (arith, remain, r1, t1, total)) in
      let behind_magic : size - l.remain ≡ 4 = omega (arith, remain) in
      let two : take 2 (view l.decorator) ≡ be16 msg_type =
        ap (take 2) (i.at ∙ ap (λ k. drop k bytes) behind_magic) in
      let behind_type : size - l1.remain ≡ 6 = omega (arith, remain, r1) in
      let left : l1.total - 4 - 2 ≡ length body = omega (arith, total, t1) in
      let all : take (l1.total - 4 - 2) (view l1.decorator) ≡ body =
        ap (λ k. take k (view l1.decorator)) left
        ∙ ap (take (length body)) (i1.at ∙ ap (λ k. drop k bytes) behind_type)
        ∙ take_append_all (length body) body rest refl in
      rw e1 (rw e2 (rw (two, all, un_be16-be16 msg_type small) refl))

  -- The whole of `UnMarshal`.
  un_marshal-value :
      (l : LimitReader S)
      → In l
      → l.remain ≡ size
      → l.total ≡ size
      → (run (limit_reader api) (less_un_marshal c) l).0
        ≡ ok (own (record { magic = magic_number; msg_type = msg_type; body = body }))
  unfolding run limit_reader less_un_marshal limit_length
  un_marshal-value l i remain total =
      let (l1, e1, i1, r1, t1) = limit_peek-ok stream size bytes 4 l i (omega (arith, remain)) in
      let (l2, e2, i2, r2, t2) =
        limit_skip-ok stream size bytes 4 l1 i1 (omega (arith, remain, r1)) in
      let long : ltb l.total 6 ≡ false = ge→ltb _ _ (omega (arith, total)) in
      let at_start : size - l.remain ≡ 0 = omega (arith, remain) in
      let four : take 4 (view l.decorator) ≡ be32 magic_number =
        ap (take 4) (i.at ∙ ap (λ k. drop k bytes) at_start) in
      rw (long, run)
        (rw e1
          (rw four (rw e2 (body-value l2 i2 (omega (arith, r2, r1, remain)) (t2 ∙ t1 ∙ total)))))

  settled-value :
      {A : Type 0} (limit : ℕ) (s : S) (a : A) (o : Outcome A × LimitReader S)
      → Settles stream limit (view s) o
      → o.0 ≡ ok a
      → (deferred api (pure tt) o).0 ≡ ok a
  settled-value limit s a (ok x, l) h e = deferred-value stream limit s x l h.inside ∙ e
  settled-value limit s a (err x, l) h e = ground arith
  settled-value limit s a (panic, l) h e = ground arith
  settled-value limit s a (hang, l) h e = ground arith

  frame-value :
      (s : S)
      → size < 2 ^ 32
      → IsReady size s
      → view s ≡ bytes
      → (un_marshal_frame api (less_un_marshal c) size s).0
        ≡ ok (own (record { magic = magic_number; msg_type = msg_type; body = body }))
  unfolding un_marshal_frame new_limit_reader
  frame-value s bound ready v =
      let i = start-InFrame stream size s bound ready in
      settled-value size s _ _ (run-Settles stream size (view s) (less_un_marshal c) _ i) (
        un_marshal-value (new_limit_reader s size)
          (subst (λ b. InFrame stream size b (new_limit_reader s size)) v i) refl refl)

  -- One of the framework's own messages, of a type that fits into two bytes, as the body of a variable
  -- length packet at the head of a stream that is ready for it: decoding, with any codec for the other
  -- messages, returns the message.
  pub variable_length_decode-own :
      (s : S)
      → size < 2 ^ 32
      → IsReady (5 + size) s
      → view s ≡ be32 size ++ (0 ∷ bytes)
      → (variable_length_decode api (less_codec c) s).0
        ≡ ok (own (record { magic = magic_number; msg_type = msg_type; body = body }))
  unfolding variable_length_decode less_codec
  variable_length_decode-own s bound ready v =
      let (s', h) = header-BehindHeader stream size s ready in
      let stated : announced stream s ≡ size =
        ap (λ b. un_be32 (take 5 b)) v ∙ un_be32-be32 size bound in
      rw h.header (
        ap (λ k. (un_marshal_frame api (less_un_marshal c) k s').0) stated
        ∙ frame-value s' bound h.ready (h.body ∙ ap (drop 5) v))
