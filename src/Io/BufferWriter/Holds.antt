-- ===== src/Io/BufferWriter/Holds.antt =====
-- What the buffered writer (pkg/io/writer/buffer.go) holds between its constructor and its flush.
use less.Base.{
  ℕ, ◌+◌, ◌-◌, ◌≤◌, ◌<◌, ◌≡◌, refl, sym, ap, ◌∙◌, true, false, [], ◌++◌, Bytes, ok, arith, leb,
  le→leb, gt→leb, ==_iff, ◌==◌, length, take, drop, replicate, overwrite_at, overwrite,
  overwrite_at-append, replicate-split, overwrite-replicate, length-append, length-replicate,
  append_assoc, append-nil, subst, replicate_add, take_append_all, drop_append_all, take_all,
}
use less.Io.Buffer.Growth.{grown-IsGrown}
use less.Io.Writer.{Sink, Region}
use less.Io.BufferWriter.{
  BufferWriter, new_buffer_writer, check_writeable, reserve, regrow, malloc, store,
}

-- `out` was written or handed out since the start, nothing of it was sent, and `k` zeros follow.
pub record Holds (out : Bytes) (k : ℕ) (w : BufferWriter) : Type 0 where
  pub at_start : w.base ≡ 0
  pub bytes : w.mem ≡ out ++ replicate k 0
  pub index : w.write_index ≡ length out
  pub size : w.len ≡ length out + k

pub new-Holds : (c : Sink) → Holds [] 256 (new_buffer_writer c)
unfolding new_buffer_writer
new-Holds c = record { at_start = refl; bytes = refl; index = refl; size = refl }

-- A writer like another, up to what it holds.
pub record Same (w w' : BufferWriter) : Type 0 where
  pub decorator : w'.decorator ≡ w.decorator
  pub pre : w'.pre_write_index ≡ w.pre_write_index
  pub growable : w'.growable ≡ w.growable

module _ (out : Bytes) (k : ℕ) (w : BufferWriter) (h : Holds out k w) (n : ℕ) where
  pub mem_length : length w.mem ≡ length out + k
  mem_length =
      ap length h.bytes
      ∙ length-append out (replicate k 0)
      ∙ ap (λ t. length out + t) (length-replicate {A = ℕ} k 0)

  abbrev pub reserved : Region
  reserved = record { array = w.array; at = length out; contents = replicate n 0 }

  zeros : length (replicate {A = ℕ} n 0) ≡ n
  zeros = length-replicate {A = ℕ} n 0

  check_writeable-fits : n ≤ k → check_writeable n w ≡ (ok true, w)
  unfolding check_writeable
  check_writeable-fits le =
      let fits : leb (w.write_index + n) w.len ≡ true =
        le→leb _ _ (omega (arith, h.index, h.size)) in
      rw fits

  -- The next `n` zeros are handed out.
  pub reserve-Holds :
      n ≤ k
      → (reserve n true w ≡ (ok reserved, record w { write_index = w.write_index + n }))
        × Holds (out ++ replicate n 0) (k - n) (record w { write_index = w.write_index + n })
  unfolding reserve
  reserve-Holds le =
      let split = ap (λ t. out ++ t) (replicate-split k n 0 le) in
      let inside : leb (w.write_index + n) (length w.mem - w.base) ≡ true =
        le→leb _ _ (omega (arith, h.index, mem_length, h.at_start)) in
      let at : w.base + w.write_index ≡ length out = omega (arith, h.index, h.at_start) in
      let cut : take n (drop (w.base + w.write_index) w.mem) ≡ replicate n 0 =
        ap (λ a. take n (drop a w.mem)) at
        ∙ ap (λ m. take n (drop (length out) m)) (h.bytes ∙ split)
        ∙ ap (take n) (drop_append_all (length out) out _ refl)
        ∙ take_append_all n (replicate n 0) _ (sym zeros) in
      (
        rw inside (λ i. (
          ok (record { array = w.array; at = at i; contents = cut i }),
          record w { write_index = w.write_index + n },
        )),
        record {
          at_start = h.at_start;
          bytes = h.bytes ∙ split ∙ sym (append_assoc out (replicate n 0) (replicate (k - n) 0));
          index = omega (arith, h.index, length-append {0} out (replicate n 0), zeros);
          size = omega (arith, h.size, length-append {0} out (replicate n 0), zeros);
        },
      )

  -- Without room a growing writer moves to a new array, which keeps what it holds.
  pub check_writeable-grows :
      k < n
      → w.growable ≡ true
      → 0 < length out + k
      → (c : ℕ) × (w' : BufferWriter) × (check_writeable n w ≡ (ok true, w'))
        × Holds out c w'
        × (n ≤ c)
        × Same w w'
        × (w'.array ≡ w.array + 1)
  unfolding check_writeable regrow
  check_writeable-grows less can pos =
      let room = length w.mem - w.base in
      let need = w.write_index + n in
      let over : leb need w.len ≡ false = gt→leb _ _ (omega (arith, h.index, h.size)) in
      let full : leb n (room - w.len) ≡ false =
        gt→leb _ _ (omega (arith, mem_length, h.at_start, h.size)) in
      let (c, e, g) =
        grown-IsGrown need room need (omega (arith, mem_length, h.at_start)) (omega arith) in
      let held = out ++ replicate k 0 in
      let held_length : length held ≡ length out + k = ap length (sym h.bytes) ∙ mem_length in
      let whole : take w.len (drop w.base w.mem) ≡ held =
        ap (λ a. take w.len (drop a w.mem)) h.at_start
        ∙ take_all w.len w.mem (omega (arith, mem_length, h.size))
        ∙ h.bytes in
      let kept : overwrite (replicate c 0) (take w.len (drop w.base w.mem))
          ≡ out ++ replicate (c - length out) 0 =
        ap (λ m. overwrite (replicate c 0) m) whole
        ∙ overwrite-replicate c 0 held (omega (arith, held_length, g.grows, mem_length, h.at_start))
        ∙ append_assoc out (replicate k 0) _
        ∙ ap (λ t. out ++ t) (replicate_add k (c - length held) 0)
        ∙ ap (λ t. out ++ replicate t 0)
            (omega (arith, held_length, g.grows, mem_length, h.at_start)) in
      (
        c - length out,
        record w {
          array = w.array + 1;
          mem = overwrite (replicate c 0) (take w.len (drop w.base w.mem));
          base = 0;
          len = c;
        },
        rw (over, can, full, e),
        record {
          at_start = refl;
          bytes = kept;
          index = h.index;
          size = omega (arith, g.enough, h.index);
        },
        omega (arith, g.enough, h.index),
        record { decorator = refl; pre = refl; growable = refl },
        refl,
      )

  pub malloc-Holds :
      n ≤ k
      → (w' : BufferWriter) × (malloc n w ≡ (ok reserved, w'))
        × Holds (out ++ replicate n 0) (k - n) w'
        × Same w w'
        × (w'.array ≡ w.array)
  unfolding malloc
  malloc-Holds le =
      let (e, h') = reserve-Holds le in
      (
        record w { write_index = w.write_index + n },
        rw (check_writeable-fits le) e,
        h',
        record { decorator = refl; pre = refl; growable = refl },
        refl,
      )

-- A write through a slice of the writer's own array changes just the bytes of the slice.
middle :
    (front part back rest : Bytes)
    → (front ++ (part ++ back)) ++ rest ≡ front ++ (part ++ (back ++ rest))
middle front part back rest =
    append_assoc front (part ++ back) rest ∙ ap (λ t. front ++ t) (append_assoc part back rest)

module _ (front old new back : Bytes) (k : ℕ) (w : BufferWriter)
    (h : Holds (front ++ (old ++ back)) k w) (r : Region) where
  pub store-Holds :
      r.array ≡ w.array
      → r.at ≡ length front
      → length old ≡ length new
      → Holds (front ++ (new ++ back)) k (store r new w)
        × Same w (store r new w)
        × ((store r new w).array ≡ w.array)
  unfolding store
  store-Holds same at size =
      let hit : (r.array == w.array) ≡ true = (==_iff _ _).1 same in
      let total : length (front ++ (new ++ back)) ≡ length (front ++ (old ++ back)) = omega (
        arith,
        size,
        length-append {0} front (new ++ back),
        length-append {0} front (old ++ back),
        length-append {0} new back,
        length-append {0} old back,
      ) in
      rw hit (
        record {
          at_start = h.at_start;
          bytes =
              ap (λ a. overwrite_at a w.mem new) at
              ∙ ap (λ m. overwrite_at (length front) m new)
                  (h.bytes ∙ middle front old back (replicate k 0))
              ∙ overwrite_at-append (length front) front old new (back ++ replicate k 0) refl size
              ∙ sym (middle front new back (replicate k 0));
          index = h.index ∙ sym total;
          size = omega (arith, h.size, total);
        },
        record { decorator = refl; pre = refl; growable = refl },
        refl,
      )

-- A write through a slice of an array that the writer has left changes nothing.
pub store-stale :
    (r : Region) (bs : Bytes) (w : BufferWriter) → r.array < w.array → store r bs w ≡ w
unfolding store
store-stale r bs w h = let miss : (r.array == w.array) ≡ false = ground arith in rw miss

-- Bytes written into zeros that were handed out at the end.
pub store_end-Holds :
    (out bs : Bytes) (k : ℕ) (w : BufferWriter) (r : Region)
    → Holds (out ++ replicate (length bs) 0) k w
    → r.array ≡ w.array
    → r.at ≡ length out
    → Holds (out ++ bs) k (store r bs w) × Same w (store r bs w) × ((store r bs w).array ≡ w.array)
store_end-Holds out bs k w r h same at =
    let zeros = replicate (length bs) 0 in
    let h' : Holds (out ++ (zeros ++ [])) k w =
      subst (λ t. Holds (out ++ t) k w) (sym (append-nil zeros)) h in
    let (e, s, a) =
      store-Holds out zeros bs [] k w h' r same at (length-replicate {A = ℕ} (length bs) 0) in
    (subst (λ t. Holds (out ++ t) k (store r bs w)) (append-nil bs) e, s, a)

pub Same-trans : (w w' w'' : BufferWriter) → Same w w' → Same w' w'' → Same w w''
Same-trans w w' w'' a b = record {
  decorator = b.decorator ∙ a.decorator;
  pre = b.pre ∙ a.pre;
  growable = b.growable ∙ a.growable;
}
