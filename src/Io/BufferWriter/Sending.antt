-- ===== src/Io/BufferWriter/Sending.antt =====
-- Writing to a buffered writer and flushing it (pkg/io/writer/buffer.go).
use less.Base.{
  ℕ, ◌+◌, ◌-◌, ◌≤◌, ◌<◌, ◌≡◌, refl, sym, ap, ◌∙◌, true, false, some, ◌++◌, Bytes, ok, arith, leb,
  le→leb, ◌==◌, length, take, drop, replicate, take_append_all,
}
use less.Io.Writer.{Sink}
use less.Io.BufferWriter.{BufferWriter, malloc, store, write, flush, send, flushed, unsent}
use less.Io.BufferWriter.Holds.{
  Holds, Same, Same-trans, reserved, mem_length, malloc-Holds, check_writeable-grows, reserve-Holds,
  store_end-Holds,
}

module _ (out bs : Bytes) (k : ℕ) (w : BufferWriter) (h : Holds out k w) where
  abbrev n : ℕ
  n = length bs

  -- A write that fits follows what was written before.
  pub write-Holds :
      n ≤ k
      → (w' : BufferWriter) × (write bs w ≡ (ok n, w'))
        × Holds (out ++ bs) (k - n) w'
        × Same w w'
        × (w'.array ≡ w.array)
  unfolding write
  write-Holds le =
      let (w1, e, h1, s1, a1) = malloc-Holds out k w h n le in
      let r = reserved out k w h n in
      let (h2, s2, a2) = store_end-Holds out bs (k - n) w1 r h1 (sym a1) refl in
      (store r bs w1, rw e, h2, Same-trans w w1 _ s1 s2, a2 ∙ a1)

  -- A write that does not fit moves the writer to another array first.
  pub write-grows :
      k < n
      → w.growable ≡ true
      → 0 < length out + k
      → (c : ℕ) × (w' : BufferWriter) × (write bs w ≡ (ok n, w'))
        × Holds (out ++ bs) c w'
        × Same w w'
        × (w'.array ≡ w.array + 1)
  unfolding write malloc
  write-grows over can pos =
      let (c, w1, e, h1, le, s1, a1) = check_writeable-grows out k w h n over can pos in
      let (e2, h2) = reserve-Holds out c w1 h1 n le in
      let r = reserved out c w1 h1 n in
      let w2 = record w1 { write_index = w1.write_index + n } in
      let (h3, s3, a3) = store_end-Holds out bs (c - n) w2 r h2 refl refl in
      (
        c - n,
        store r bs w2,
        rw e (rw e2),
        h3,
        Same-trans w w1 _ s1
            (record { decorator = s3.decorator; pre = s3.pre; growable = s3.growable }),
        a3 ∙ a1,
      )

-- The first flush sends all that the writer holds.
pub flush-Holds :
    (out : Bytes) (k : ℕ) (w : BufferWriter) (c : Sink)
    → Holds out k w
    → 0 < length out
    → w.growable ≡ true
    → w.pre_write_index ≡ 0
    → w.decorator ≡ some c
    → c.open_ ≡ true
    → (w' : BufferWriter) × (flush w ≡ (ok tt, w'))
      × (w'.decorator ≡ some (record { sent = c.sent ++ out; open_ = true }))
unfolding flush send flushed
flush-Holds out k w c h some_out can pre dec up =
    let a : (w.write_index == 0) ≡ false = ground (arith, h.index) in
    let b : (w.pre_write_index == w.write_index) ≡ false = ground (arith, h.index) in
    let d : leb w.pre_write_index w.write_index ≡ true = le→leb _ _ (omega arith) in
    let size = mem_length out k w h 0 in
    let f : leb w.write_index (length w.mem - w.base) ≡ true =
      le→leb _ _ (omega (arith, h.index, h.at_start, size)) in
    let g : leb w.write_index w.len ≡ true = le→leb _ _ (omega (arith, h.index, h.size)) in
    let origin : w.base + w.pre_write_index ≡ 0 = omega (arith, h.at_start) in
    let count : w.write_index - w.pre_write_index ≡ length out = omega (arith, h.index) in
    let all : unsent w ≡ out =
      unfold unsent in
      ap (λ a. take (w.write_index - w.pre_write_index) (drop a w.mem)) origin
      ∙ ap (λ n. take n w.mem) count
      ∙ ap (take (length out)) h.bytes
      ∙ take_append_all (length out) out (replicate k 0) refl in
    (
      record w {
        decorator = some (record c { sent = c.sent ++ unsent w });
        base = w.base + w.write_index;
        len = w.len - w.write_index;
        pre_write_index = w.write_index;
      },
      rw (can, a, b, dec) (rw (d, f, up) (rw g)),
      λ i. some (record { sent = c.sent ++ all i; open_ = up i }),
    )
