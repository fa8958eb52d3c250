-- ===== src/Codec/Packet/Encode.antt =====
-- Encoding with the variable length packet codec (codec/packet/var_length.go) into a fresh buffered
-- writer over a connection.
use less.Base.{
  ℕ, ◌+◌, ◌-◌, ◌≤◌, ◌<◌, ◌≡◌, refl, sym, ◌∙◌, subst, true, some, [], ◌∷◌, ◌++◌, Bytes, ok, arith,
  length, replicate,
}
use less.Io.Writer.{Sink, Region, be32, put_uint32}
use less.Io.BufferWriter
use less.Io.BufferWriter.{
  BufferWriter, new_buffer_writer, buffer_writer, DirectWriter, direct_writer, wrap_buffer_writer,
  direct_write,
}
use less.Io.BufferWriter.Holds.{
  Holds, Same, new-Holds, malloc-Holds, Same-trans, store-Holds, store-stale, reserved,
}
use less.Io.BufferWriter.Sending.{write-Holds, write-grows, flush-Holds}
use less.Io.Limit.{u32}
use less.Codec.{done, give_up, write, run_marshal, Message, PayloadCodec}
use less.Codec.Packet.{variable_length_encode, marshal_counted, max_varint_len32}

-- `Marshal` on the wrapped writer, where `body` fits into the buffer, puts `body` behind what was
-- written before and counts its bytes.
abbrev pub Marshals : PayloadCodec → Message → Bytes → Type 0
Marshals p m body =
    (front : Bytes) (k : ℕ) (w : BufferWriter)
    → Holds front k w
    → length body ≤ k
    → (w' : BufferWriter) × (marshal_counted buffer_writer p m w ≡ (ok (length body), w'))
      × Holds (front ++ body) (k - length body) w'
      × Same w w'
      × (w'.array ≡ w.array)

module _ (c : Sink) (up : c.open_ ≡ true) (p : PayloadCodec) (m : Message) where
  abbrev header : Bytes
  header = replicate max_varint_len32 0

  abbrev w0 : BufferWriter
  w0 = new_buffer_writer c

  -- The slice that `Malloc` returns for the header.
  abbrev header_slice : Region
  header_slice = reserved [] 256 w0 (new-Holds c) max_varint_len32

  -- What holds once the header is handed out.
  record AfterMalloc (w : BufferWriter) : Type 0 where
    made : BufferWriter.malloc max_varint_len32 w0 ≡ (ok header_slice, w)
    holds : Holds header 251 w
    same : Same w0 w
    in_place : w.array ≡ w0.array

  after_malloc : (w : BufferWriter) × AfterMalloc w
  after_malloc =
      let (w, e, h, s, a) = malloc-Holds [] 256 w0 (new-Holds c) max_varint_len32 (omega arith) in
      (w, record { made = e; holds = h; same = s; in_place = a })

  -- A flush at the end, of a writer like the fresh one.
  flush_all :
      (out : Bytes) (k : ℕ) (w : BufferWriter)
      → Holds out k w
      → Same w0 w
      → 0 < length out
      → (w' : BufferWriter) × (BufferWriter.flush w ≡ (ok tt, w'))
        × (w'.decorator ≡ some (record { sent = c.sent ++ out; open_ = true }))
  unfolding new_buffer_writer
  flush_all out k w h s pos = flush-Holds out k w c h pos s.growable s.pre s.decorator up

  abbrev pub Sends : Bytes → Type 0
  Sends out =
      (w : BufferWriter) × (variable_length_encode buffer_writer p m w0 ≡ (ok tt, w))
      × (w.decorator ≡ some (record { sent = c.sent ++ out; open_ = true }))

  encode_from :
      (n : ℕ) (w1 w2 w3 : BufferWriter) (out : Bytes) (k : ℕ)
      → AfterMalloc w1
      → marshal_counted buffer_writer p m w1 ≡ (ok n, w2)
      → BufferWriter.store header_slice (be32 (u32 n)) w2 ≡ w3
      → Holds out k w3
      → Same w0 w3
      → 0 < length out
      → Sends out
  unfolding variable_length_encode buffer_writer put_uint32
  encode_from n w1 w2 w3 out k a e stored h s pos =
      let (w, f, sent) = flush_all out k w3 h s pos in (w, rw a.made (rw e (rw stored f)), sent)

  -- What is marshalled in place is sent behind its length, in four bytes and a zero.
  pub Marshals-Sends :
      (body : Bytes)
      → Marshals p m body
      → length body ≤ 251
      → Sends (be32 (length body) ++ (0 ∷ body))
  Marshals-Sends body marshals le =
      let n = length body in
      let (w1, a) = after_malloc in
      let (w2, e, h2, s2, in_place) = marshals header 251 w1 a.holds le in
      let stamp = be32 (u32 n) in
      let (h3, s3, _) =
        store-Holds [] (replicate 4 0) stamp (0 ∷ body) _ w2 h2 header_slice
          (sym (in_place ∙ a.in_place)) refl refl in
      let exact : u32 n ≡ n = omega arith in
      encode_from n w1 w2 (BufferWriter.store header_slice stamp w2) (be32 n ++ (0 ∷ body))
        (251 - n) a e refl
        (subst
          (λ v. Holds (be32 v ++ (0 ∷ body)) (251 - n) (BufferWriter.store header_slice stamp w2))
          exact h3)
        (Same-trans w0 w1 _ a.same (Same-trans w1 w2 _ s2 s3)) (omega arith)

module _ (c : Sink) (up : c.open_ ≡ true) (p : PayloadCodec) (m : Message) (body : Bytes)
    (one_write : p.marshal m ≡ write body done give_up) where
  abbrev n : ℕ
  n = length body

  -- `Marshal` on the wrapped writer counts the bytes of its one write.
  marshal_counted-write :
      (w w' : BufferWriter)
      → BufferWriter.write body w ≡ (ok n, w')
      → marshal_counted buffer_writer p m w ≡ (ok n, w')
  unfolding marshal_counted run_marshal direct_writer direct_write wrap_buffer_writer buffer_writer
  marshal_counted-write w w' e =
      let all : 0 + n ≡ n = omega arith in rw one_write (rw e (rw all refl))

  write-Marshals : Marshals p m body
  write-Marshals front k w h le =
      let (w', e, h', s, a) = write-Holds front body k w h le in
      (w', marshal_counted-write w w' e, h', s, a)

  -- On an open connection, and with a payload codec that writes the body in one call: a body of at most
  -- 251 bytes, which fits into the writer's first buffer with its header, is sent with its length in
  -- front, in four bytes and a zero.
  pub variable_length_encode-frame : n ≤ 251 → Sends c up p m (be32 n ++ (0 ∷ body))
  variable_length_encode-frame le = Marshals-Sends c up p m body write-Marshals le

  -- On an open connection, and with a payload codec that writes the body in one call: a body of more
  -- than 251 bytes, which makes the writer's buffer grow, is sent with zeros in place of its length.
  pub variable_length_encode-grown : 251 < n → Sends c up p m (replicate max_varint_len32 0 ++ body)
  variable_length_encode-grown above =
      let (w1, a) = after_malloc c up p m in
      let (k, w2, e, h2, s2, moved) =
        write-grows (replicate max_varint_len32 0) body 251 w1 a.holds above
          (a.same.growable ∙ unfold new_buffer_writer in refl) (omega arith) in
      let stamp = be32 (u32 n) in
      encode_from c up p m n w1 w2 w2 (replicate max_varint_len32 0 ++ body) k a
        (marshal_counted-write w1 w2 e)
        (store-stale (header_slice c up p m) stamp w2 (omega (arith, moved, a.in_place))) h2
        (Same-trans (new_buffer_writer c) w1 w2 a.same s2) (omega arith)
