-- ===== src/Codec/Delimiter/Decode.antt =====
-- Decoding with the delimiter packet codec (codec/packet/delimiter.go) over a stream.
use less.Base.{
  Outcome, if◌then◌else◌, ℕ, zero, suc, ◌+◌, ◌-◌, ◌^◌, ◌≤◌, ◌<◌, ◌≡◌, refl, sym, ap, ◌∙◌, inl, inr,
  Bool, ◌&&◌, true, false, Bool-cases, ==_iff, ◌==◌, leb→le, Bytes, ok, err,
  msg_size_greater_than_max_length, arith, length, take, drop, length-take, subst,
}
use less.Io.Reader.{Reader, Stream}
use less.Io.Limit.{new_limit_reader, limit_reader, u32}
use less.Codec.{run, PayloadCodec, Message}
use less.Codec.Frame.{run-Settles}
use less.Codec.Packet.{deferred}
use less.Codec.Packet.Decode.{Consumed, start-InFrame}
use less.Codec.Delimiter.{
  DelimiterCodec, ends_frame, find_end, skip_delimiter, un_marshal_body, delimiter_decode,
}
use less.Codec.Delimiter.Slack.{with_slack, deferred-Behind}

&&-left : (a b : Bool) → a && b ≡ true → a ≡ true
&&-left true b h = refl
&&-left false b h = h

-- The length of what the payload codec sees of a frame.
abbrev pub body_length : DelimiterCodec → ℕ → ℕ
body_length dc size = if dc.strip_delimiter then size - dc.delimiter_length else size

module _ {S : Type 0} {api : Reader S} (stream : Stream api) (dc : DelimiterCodec) where
  open stream use {view, IsReady, enough, peek_law, skip_law}

  -- The first `k` of these bytes end in the delimiter.
  abbrev pub ends : ℕ → Bytes → Bool
  ends k bytes = ends_frame api dc k (take k bytes)

  -- The loop stops at the first length whose bytes end in the delimiter.
  find_end-first :
      (rounds size last : ℕ) (s : S) (bytes : Bytes)
      → view s ≡ bytes
      → IsReady last s
      → size ≤ last
      → last < size + rounds
      → ((k : ℕ) → size ≤ k → k < last → ends k bytes ≡ false)
      → ends last bytes ≡ true
      → (s' : S) × (find_end api dc rounds size s ≡ (ok last, s'))
        × (view s' ≡ bytes)
        × IsReady last s'
  unfolding find_end
  find_end-first zero size last s bytes at r le lt before end = absurd (omega arith)
  find_end-first (suc rounds) size last s bytes at r le lt before end =
      let (s1, e, v, r1) = peek_law last size s r le in
      let seen : ends_frame api dc size (take size (view s)) ≡ ends size bytes =
        ap (λ b. ends size b) at in
      elim (Bool-cases (size == last)) [
        | inl same ↦
            let is : size ≡ last = (==_iff _ _).0 same in
            let stop : ends_frame api dc size (take size (view s)) ≡ true =
              seen ∙ ap (λ k. ends k bytes) is ∙ end in
            (s1, rw (e, stop) (ap (λ k. (ok k, s1)) is), v ∙ at, r1)
        | inr differ ↦
            let on : size < last = ground arith in
            let go : ends_frame api dc size (take size (view s)) ≡ false =
              seen ∙ before size (omega arith) on in
            let (s2, e2, v2, r2) =
              find_end-first rounds (size + 1) last s1 bytes (v ∙ at) r1 (omega arith) (omega arith)
                (λ k a b. before k (omega arith) b) end in
            (s2, rw (e, go) e2, v2, r2)
      ]

  -- Without such a length the loop ends behind its last round.
  find_end-refused :
      (rounds size top : ℕ) (s : S) (bytes : Bytes)
      → view s ≡ bytes
      → IsReady top s
      → size + rounds ≤ suc top
      → ((k : ℕ) → size ≤ k → k < size + rounds → ends k bytes ≡ false)
      → (s' : S) × (find_end api dc rounds size s ≡ (err msg_size_greater_than_max_length, s'))
        × (view s' ≡ bytes)
  unfolding find_end
  find_end-refused zero size top s bytes at r le before = (s, refl, at)
  find_end-refused (suc rounds) size top s bytes at r le before =
      let (s1, e, v, r1) = peek_law top size s r (omega arith) in
      let go : ends_frame api dc size (take size (view s)) ≡ false =
        ap (λ b. ends size b) at ∙ before size (omega arith) (omega arith) in
      let (s2, e2, v2) =
        find_end-refused rounds (size + 1) top s1 bytes (v ∙ at) r1 (omega arith)
          (λ k a b. before k (omega arith) (omega arith)) in
      (s2, rw (e, go) e2, v2)

  -- The frame of `size` bytes with its delimiter is taken, and what the payload codec makes of its
  -- body is the result.
  abbrev TakesFrame : PayloadCodec → ℕ → S → Outcome Message × S → Type 0
  TakesFrame c size s o =
      Consumed stream size s o
      × (o.0 ≡ (run (limit_reader api) c.un_marshal (new_limit_reader s (body_length dc size))).0)

  -- What the deferred function does over a slack of `slack` bytes.
  body-TakesFrame :
      (c : PayloadCodec) (limit slack : ℕ) (s : S)
      → limit < 2 ^ 32
      → IsReady (limit + slack) s
      → ((s1 : S)
          → IsReady slack s1
          → (s2 : S) × (skip_delimiter api dc s1 ≡ (ok tt, s2))
            × (view s2 ≡ drop slack (view s1))
            × IsReady 0 s2)
      → let inner = run (limit_reader api) c.un_marshal (new_limit_reader s (u32 limit)) in
        let o = deferred api (skip_delimiter api dc) inner in
        Consumed stream (limit + slack) s o
        × (o.0 ≡ (run (limit_reader api) c.un_marshal (new_limit_reader s limit)).0)
  body-TakesFrame c limit slack s small r rest =
      let exact : u32 limit ≡ limit = omega arith in
      rw exact (
        deferred-Behind stream slack (skip_delimiter api dc) rest limit s _ (
          run-Settles (with_slack stream slack) limit (view s) c.un_marshal _
            (start-InFrame (with_slack stream slack) limit s small r)))

  skip_delimiter-strip :
      dc.strip_delimiter ≡ true
      → (s : S) → IsReady dc.delimiter_length s
      → (s' : S) × (skip_delimiter api dc s ≡ (ok tt, s'))
        × (view s' ≡ drop dc.delimiter_length (view s))
        × IsReady 0 s'
  unfolding skip_delimiter
  skip_delimiter-strip strip s r =
      let (s', e, v, r') = skip_law dc.delimiter_length dc.delimiter_length s r (omega arith) in
      let none_left : dc.delimiter_length - dc.delimiter_length ≡ 0 = omega arith in
      (s', rw strip e, v, subst (λ k. IsReady k s') none_left r')

  skip_delimiter-keep : dc.strip_delimiter ≡ false → (s : S) → skip_delimiter api dc s ≡ (ok tt, s)
  unfolding skip_delimiter
  skip_delimiter-keep keep s = rw keep

  body_and_slack :
      (size : ℕ)
      → dc.delimiter_length ≤ size
      → (slack : ℕ) × (body_length dc size + slack ≡ size)
        × ((s : S)
            → IsReady slack s
            → (s' : S) × (skip_delimiter api dc s ≡ (ok tt, s'))
              × (view s' ≡ drop slack (view s))
              × IsReady 0 s')
  body_and_slack size le = elim (Bool-cases dc.strip_delimiter) [
    | inl strip ↦ (
      dc.delimiter_length,
      ap (λ b. (if b then size - dc.delimiter_length else size) + dc.delimiter_length) strip
          ∙ omega arith,
      skip_delimiter-strip strip,
    )
    | inr keep ↦ (
      0,
      ap (λ b. (if b then size - dc.delimiter_length else size) + 0) keep ∙ omega arith,
      λ s r. (s, skip_delimiter-keep keep s, refl, r),
    )
  ]

  un_marshal_body-TakesFrame :
      (c : PayloadCodec) (size : ℕ) (s : S)
      → dc.delimiter_length ≤ size
      → size < 2 ^ 32
      → IsReady size s
      → TakesFrame c size s (un_marshal_body api dc c size s)
  unfolding un_marshal_body
  un_marshal_body-TakesFrame c size s le small r =
      let (slack, whole, rest) = body_and_slack size le in
      let (a, b) =
        body-TakesFrame c (body_length dc size) slack s (omega (arith, whole))
          (subst (λ k. IsReady k s) (sym whole) r) rest in
      (subst (λ k. Consumed stream k s (un_marshal_body api dc c size s)) whole a, b)

  -- The first frame of these bytes is `size` bytes long, the delimiter included.
  pub record FirstFrame (size : ℕ) (bytes : Bytes) : Type 0 where
    pub some_byte : 0 < size
    pub within : size ≤ dc.max_length
    pub before : (k : ℕ) → 1 ≤ k → k < size → ends k bytes ≡ false
    pub end : ends size bytes ≡ true

  ends-delimiter_length :
      (k : ℕ) (bytes : Bytes) → ends k bytes ≡ true → dc.delimiter_length ≤ length (take k bytes)
  unfolding ends_frame
  ends-delimiter_length k bytes h = leb→le _ _ (&&-left _ _ h)

  -- Over a stream that is ready for its first frame, decoding with the delimiter codec returns what
  -- the payload codec makes of the frame's body, which is the frame without its delimiter if the
  -- codec strips it, and leaves the stream exactly behind the delimiter.
  pub delimiter_decode-first :
      (c : PayloadCodec) (size : ℕ) (s : S)
      → dc.max_length < 2 ^ 32
      → IsReady size s
      → FirstFrame size (view s)
      → (s' : S) × (view s' ≡ view s)
        × IsReady size s'
        × (let o = delimiter_decode api dc c s in
            Consumed stream size s o
            × (o.0
                ≡ (run
                    (limit_reader api)
                    c.un_marshal
                    (new_limit_reader s' (body_length dc size))).0))
  unfolding delimiter_decode
  delimiter_decode-first c size s small r f =
      let (s', e, v, r') =
        find_end-first dc.max_length 1 size s (view s) refl r (omega (arith, f.some_byte))
          (omega (arith, f.within)) f.before f.end in
      let fits : dc.delimiter_length ≤ size =
        omega (arith, ends-delimiter_length size (view s) f.end, length-take {0} size (view s)) in
      let (a, b) = un_marshal_body-TakesFrame c size s' fits (omega (arith, f.within)) r' in
      (
        s',
        v,
        r',
        rw e (
          record { returned = a.returned; rest = a.rest ∙ ap (drop size) v; spent = a.spent },
          b,
        ),
      )

  -- Where none of the first `maxLength` bytes of a stream that is ready for them ends a frame,
  -- decoding refuses the message with an error and takes nothing.
  pub delimiter_decode-refuses :
      (c : PayloadCodec) (s : S)
      → IsReady dc.max_length s
      → ((k : ℕ) → 1 ≤ k → k ≤ dc.max_length → ends k (view s) ≡ false)
      → (s' : S) × (delimiter_decode api dc c s ≡ (err msg_size_greater_than_max_length, s'))
        × (view s' ≡ view s)
  unfolding delimiter_decode
  delimiter_decode-refuses c s r before =
      let (s', e, v) =
        find_end-refused dc.max_length 1 dc.max_length s (view s) refl r (omega arith)
          (λ k a b. before k a (omega arith)) in
      (s', rw e refl, v)
