-- ===== src/Io/BufferWriter/Exhausted.antt =====
-- A writer whose whole buffer was flushed (pkg/io/writer/buffer.go).
use less.Base.{
  ℕ, zero, suc, ◌+◌, ◌-◌, ◌<◌, ◌≡◌, refl, ap, ◌∙◌, true, false, none, some, Bytes, ok, hang, arith,
  leb, le→leb, gt→leb, lt→ltb, ◌==◌, length, ◌++◌,
}
use less.Io.Writer.{Sink}
use less.Io.Buffer.{grown}
use less.Io.BufferWriter.{
  BufferWriter, regrow, check_writeable, malloc, write, flush, send, flushed, unsent,
}

-- Doubling 0 never gets anywhere, however often it is done.
grown-zero : (fuel min : ℕ) → 0 < min → grown fuel 0 min ≡ none
unfolding grown
grown-zero zero min h = refl
grown-zero (suc fuel) min h = rw (lt→ltb 0 min h) (grown-zero fuel min h)

malloc-hangs :
    (n : ℕ) (w : BufferWriter)
    → length w.mem - w.base ≡ 0
    → w.len ≡ 0
    → w.growable ≡ true
    → 0 < n
    → (malloc n w).0 ≡ hang
unfolding malloc check_writeable regrow
malloc-hangs n w c l g h =
    let min = w.write_index + n in
    let endless : grown (suc min) (length w.mem - w.base) min ≡ none =
      ap (λ k. grown (suc min) k min) c ∙ grown-zero (suc min) min (omega arith) in
    rw
      (
        gt→leb min w.len (omega (arith, l)),
        g,
        gt→leb n (length w.mem - w.base - w.len) (omega (arith, c)),
        endless,
      )
      refl

sent_all : (w : BufferWriter) (c : Sink) → BufferWriter
unfolding unsent
sent_all w c = record w {
  decorator = some (record c { sent = c.sent ++ unsent w });
  base = w.base + w.write_index;
  len = w.len - w.write_index;
  pre_write_index = w.write_index;
}

flush-all :
    (w : BufferWriter) (c : Sink)
    → w.growable ≡ true
    → w.decorator ≡ some c
    → c.open_ ≡ true
    → w.pre_write_index < w.write_index
    → w.write_index ≡ w.len
    → w.write_index ≡ length w.mem - w.base
    → flush w ≡ (ok tt, sent_all w c)
unfolding flush send flushed sent_all
flush-all w c g d o p l m =
    let a : (w.write_index == 0) ≡ false = ground arith in
    let b : (w.pre_write_index == w.write_index) ≡ false = ground arith in
    let e : leb w.pre_write_index w.write_index ≡ true = le→leb _ _ (omega arith) in
    let f : leb w.write_index (length w.mem - w.base) ≡ true = le→leb _ _ (omega (arith, m)) in
    let h : leb w.write_index w.len ≡ true = le→leb _ _ (omega (arith, l)) in
    rw (g, a, b, d) (rw (e, f, o) (rw h refl))

-- When a growing writer holds bytes up to the end of its buffer and sends them with `Flush`, every later
-- `Write` of something runs forever: the buffer has no capacity left, and the loop that looks for a larger
-- one doubles 0.
pub write-flush_hangs :
    (w : BufferWriter) (c : Sink) (buf : Bytes)
    → w.growable ≡ true
    → w.decorator ≡ some c
    → c.open_ ≡ true
    → w.pre_write_index < w.write_index
    → w.write_index ≡ w.len
    → w.write_index ≡ length w.mem - w.base
    → 0 < length buf
    → ((flush w).0 ≡ ok tt) × ((write buf (flush w).1).0 ≡ hang)
unfolding write sent_all
write-flush_hangs w c buf g d o p l m b =
    let sent = flush-all w c g d o p l m in
    let stuck =
      malloc-hangs (length buf) (sent_all w c) (omega (arith, m)) (omega (arith, l)) g b in
    rw sent (refl, rw stuck refl)
