-- ===== src/Io/Buffer/Growth.antt =====
-- The growing buffer of the buffered reader (pkg/io/reader/buffer.go, `growth`).
use less.Base.{
  ℕ, zero, suc, ◌+◌, ◌-◌, ◌*◌, ◌≤◌, ◌<◌, ◌≡◌, refl, ap, ◌∙◌, inl, inr, true, false, not, ◌&&◌,
  Bytes, ok, panic, arith, leb, gt→leb, ltb, ltb→lt, ltb→ge, lt→ltb, ge→ltb, ◌==◌, Bool-cases, some,
  length, take, drop, replicate, overwrite, length-overwrite, length-replicate, take-overwrite,
  take_all,
}
use less.Io.Reader.{slice}
use less.Io.Buffer.{
  BufferReader, grown, growth, reslice, make_room, fill, sliced, ensure_readable, peek,
}
use less.Io.Buffer.Unread.{unread, IsValid, IsPrepared, want_of}
use less.Io.Buffer.Stream.{peek-Peeked}

-- The doubling loop ends at a capacity that is large enough, and stays if it was.
pub record IsGrown (capacity min c : ℕ) : Type 0 where
  pub enough : min ≤ c
  pub grows : capacity ≤ c
  pub stays : min ≤ capacity → c ≡ capacity

pub grown-IsGrown :
    (f capacity min : ℕ)
    → 0 < capacity
    → min < capacity + suc f
    → (c : ℕ) × (grown (suc f) capacity min ≡ some c) × IsGrown capacity min c
unfolding grown
grown-IsGrown zero capacity min pos h =
    let fine : ltb capacity min ≡ false = ge→ltb _ _ (omega arith) in
    (capacity, rw fine, record { enough = omega arith; grows = omega arith; stays = λ _. refl })
grown-IsGrown (suc f) capacity min pos h = elim (Bool-cases (ltb capacity min)) [
  | inl less ↦
      let (c, e, g) = grown-IsGrown f (capacity * 2) min (omega arith) (omega arith) in
      (
        c,
        rw less e,
        record {
          enough = g.enough;
          grows = omega (arith, g.grows);
          stays = λ no. absurd (omega (arith, ltb→lt _ _ less));
        },
      )
  | inr fine ↦ (
    capacity,
    rw fine,
    record { enough = ltb→ge _ _ fine; grows = omega arith; stays = λ _. refl },
  )
]

slice-panic : (mem : Bytes) (lo hi : ℕ) → length mem < hi → slice mem lo hi ≡ panic
slice-panic mem lo hi h = ground (arith, gt→leb hi (length mem) h)

module _ (r : BufferReader) (v : IsValid r) (can : r.growable ≡ true) (some_room : 0 < r.len)
    (inside : r.write_index ≤ r.len) (n : ℕ) (beyond : r.len < r.read_index + n) where
  abbrev want : ℕ
  want = want_of n r

  abbrev lacking : ℕ
  lacking = want + r.write_index - r.len

  abbrev min : ℕ
  min = r.write_index + lacking

  enlarged : ℕ → BufferReader
  enlarged c = record r { mem = overwrite (replicate c 0) (take r.len r.mem); len = c }

  length-enlarged : (c : ℕ) → length (overwrite (replicate c 0) (take r.len r.mem)) ≡ c
  length-enlarged c =
      length-overwrite (replicate c 0) (take r.len r.mem) ∙ length-replicate {A = ℕ} c 0

  growth-enlarged :
      (c : ℕ) → grown (suc min) (length r.mem) min ≡ some c → growth lacking r ≡ (ok tt, enlarged c)
  unfolding growth reslice enlarged
  growth-enlarged c e =
      let no : leb lacking (length r.mem - r.len) ≡ false =
        gt→leb _ _ (omega (arith, v.tight can, v.ordered)) in
      rw no (rw e refl)

  make_room-enlarged :
      (c : ℕ) → grown (suc min) (length r.mem) min ≡ some c → make_room want r ≡ (ok tt, enlarged c)
  unfolding make_room
  make_room-enlarged c e =
      let beyond' : ltb r.len (r.write_index + want) ≡ true =
        lt→ltb _ _ (omega (arith, v.ordered)) in
      rw beyond' (growth-enlarged c e)

  growable_allowed : (not r.growable && ltb r.len (r.write_index + want)) ≡ false
  growable_allowed = rw can

  enlarged-IsPrepared :
      (c : ℕ)
      → grown (suc min) (length r.mem) min ≡ some c
      → r.read_index + n ≤ c
      → IsPrepared want r (enlarged c)
  unfolding enlarged
  enlarged-IsPrepared c e fits =
      let size = length-replicate {A = ℕ} c 0 in
      record {
        allowed = growable_allowed;
        made = unfold enlarged in make_room-enlarged c e;
        roomed = record {
          decorator = refl;
          read_same = refl;
          write_same = refl;
          growable = refl;
          within = omega (arith, length-enlarged c);
          tight = λ _. omega (arith, length-enlarged c);
          room = omega (arith, v.ordered);
          bytes = ap (drop r.read_index) (
              rw (take_all r.len r.mem (omega (arith, v.tight can))) (
                take-overwrite r.write_index (replicate c 0) r.mem (omega (arith, v.within))
                  (omega (arith, size, v.ordered))));
          front = rw (take_all r.len r.mem (omega (arith, v.tight can))) (
              take-overwrite r.read_index (replicate c 0) r.mem (omega (arith, v.within, v.ordered))
                (omega (arith, size, v.ordered)));
        };
      }

  -- Too small a capacity makes the slice expression behind `growth` panic.
  enlarged_panic :
      (c : ℕ)
      → grown (suc min) (length r.mem) min ≡ some c
      → c < r.read_index + n
      → peek n r ≡ (panic, enlarged c)
  unfolding peek ensure_readable fill sliced enlarged
  enlarged_panic c e short =
      let pos : (n == 0) ≡ false = ground (arith, v.ordered) in
      let more : leb n (r.write_index - r.read_index) ≡ false = gt→leb _ _ (omega arith) in
      let hi = r.write_index + want in
      let out =
        slice-panic (overwrite (replicate c 0) (take r.len r.mem)) r.write_index hi
          (omega (arith, length-enlarged c, v.ordered)) in
      rw (pos, more, growable_allowed, make_room-enlarged c e) (rw out refl)

module _ (r : BufferReader) (n : ℕ) (v : IsValid r) (can : r.growable ≡ true)
    (inside : r.write_index ≤ r.len) (some_room : 0 < r.len)
    (beyond : r.len < r.read_index + n) where
  abbrev asked : ℕ
  asked = r.write_index + (want_of n r + r.write_index - r.len)

  -- The capacity that `growth` arrives at.
  new_capacity :
      (c : ℕ) × (grown (suc asked) (length r.mem) asked ≡ some c) × IsGrown (length r.mem) asked c
  new_capacity =
      grown-IsGrown asked (length r.mem) asked (omega (arith, v.within)) (omega (arith, v.within))

  -- A valid growing reader with a buffer, whose write index is inside it: `Peek n` panics when the
  -- `n` bytes asked for end beyond the buffer and the write index, the read index and `n` add up to
  -- at most twice its length, since the new buffer is then no larger than the old one.
  pub peek-growth_panics : r.write_index + (r.read_index + n) ≤ 2 * r.len → (peek n r).0 ≡ panic
  peek-growth_panics small =
      let (c, e, g) = new_capacity in
      let same : c ≡ length r.mem = g.stays (omega (arith, v.within, v.ordered)) in
      ap (λ o. o.0)
        (enlarged_panic r v can some_room inside n beyond c e (omega (arith, v.tight can)))

  -- A buffer that is full grows far enough.
  pub full-IsPrepared :
      r.write_index ≡ r.len
      → (r' : BufferReader) × IsPrepared (want_of n r) r r' × (r.read_index + n ≤ r'.len)
  unfolding enlarged
  full-IsPrepared full =
      let (c, e, g) = new_capacity in
      let fits : r.read_index + n ≤ c = omega (arith, g.enough, v.ordered) in
      (
        enlarged r v can some_room inside n beyond c,
        enlarged-IsPrepared r v can some_room inside n beyond c e fits,
        fits,
      )

  -- A valid growing reader with a buffer that is full: when the `n` bytes asked for end beyond the
  -- buffer and as many are unread, `Peek n` returns the next `n` unread bytes and leaves them
  -- unread, and the reader valid.
  pub peek-growth_serves :
      r.write_index ≡ r.len
      → n ≤ length (unread r)
      → (r2 : BufferReader) × (peek n r ≡ (ok (take n (unread r)), r2))
        × (unread r2 ≡ unread r)
        × IsValid r2
  peek-growth_serves full enough =
      let (r', p, _) = full-IsPrepared full in
      let (r2, y, _) = peek-Peeked n r v r' (omega (arith, v.ordered)) enough p in
      (r2, y.result, y.ready.same, y.ready.is_valid)
