-- ===== src/Io/Buffer/Stream.antt =====
-- Peek, Next and Skip of the buffered reader (pkg/io/reader/buffer.go) against the stream of its
-- unread bytes.
use less.Base.{
  ℕ, zero, suc, ◌+◌, ◌-◌, ◌≤◌, ◌<◌, ◌≡◌, refl, sym, ap, ◌∙◌, ◌⊎◌, inl, inr, false, ◌++◌, ok, arith,
  ◌==◌, length, take, drop, drop-append_le, length-drop, drop-drop,
}
use less.Io.Source.{pending}
use less.Io.Buffer.{BufferReader, peek, next, skip, advance}
use less.Io.Buffer.Unread.{
  buffered, unread, IsValid, IsPrepared, Ready, Ready-slice, prepared-Ready, fits-IsPrepared,
  want_of, length-buffered,
}

-- `k` more bytes are unread, and the buffer has room for them as it is.
pub record IsReady (k : ℕ) (r : BufferReader) : Type 0 where
  pub is_valid : IsValid r
  pub fits : r.read_index + k ≤ r.len
  pub enough : k ≤ length (unread r)

module _ (n : ℕ) (r : BufferReader) (v : IsValid r) where
  -- What a successful `Peek n` leaves.
  pub record Peeked (r2 : BufferReader) : Type 0 where
    pub result : peek n r ≡ (ok (take n (unread r)), r2)
    pub ready : Ready n r r2

  pub peek-Peeked :
      (r' : BufferReader)
      → 0 < n
      → n ≤ length (unread r)
      → IsPrepared (want_of n r) r r'
      → (r2 : BufferReader) × Peeked r2 × ((r2.len ≡ r.len) ⊎ (r2.len ≡ r'.len))
  unfolding peek
  peek-Peeked r' pos enough p =
      let (r2, e, y, size) = prepared-Ready n r v r' pos enough p in
      let nz : (n == 0) ≡ false = ground arith in
      (
        r2,
        record { result = rw (nz, e) (ap (λ o. (o, r2)) (Ready-slice n r v y enough)); ready = y },
        size,
      )

-- A reader that has made sure of `n` bytes hands them out by moving its index.
module _ (n : ℕ) (r : BufferReader) {r' : BufferReader} (y : Ready n r r') where
  abbrev moved : BufferReader
  moved = record r' { read_index = r'.read_index + n }

  pub Ready-moved-unread : unread moved ≡ drop n (unread r)
  Ready-moved-unread =
      let stored = length-buffered r' y.is_valid in
      ap (λ t. t ++ pending r'.decorator)
        (sym (drop-drop n r'.read_index (take r'.write_index r'.mem)))
      ∙ sym (
          drop-append_le n (buffered r') (pending r'.decorator) (omega (arith, stored, y.readable)))
      ∙ ap (drop n) y.same

  pub Ready-moved-IsValid : IsValid moved
  Ready-moved-IsValid = record {
    ordered = y.readable;
    within = y.is_valid.within;
    tight = y.is_valid.tight;
    kept = inl y.stored;
  }

-- The buffer serves the first `n` of `k` bytes without growing.
pub IsReady-IsPrepared :
    (k n : ℕ) (r : BufferReader) → IsReady k r → n ≤ k → 0 < n → IsPrepared (want_of n r) r r
IsReady-IsPrepared k n r h le pos =
    fits-IsPrepared (want_of n r) r h.is_valid (elim h.is_valid.kept [
      | inl e ↦ omega (arith, h.fits, h.is_valid.ordered)
      | inr e ↦ omega (arith, h.fits)
    ])

IsReady-Peeked :
    (k n : ℕ) (r : BufferReader) (h : IsReady k r)
    → n ≤ k
    → 0 < n
    → (r2 : BufferReader) × Peeked n r h.is_valid r2 × (r2.len ≡ r.len)
IsReady-Peeked k n r h le pos =
    let (r2, y, size) =
      peek-Peeked n r h.is_valid r pos (omega (arith, h.enough))
        (IsReady-IsPrepared k n r h le pos) in
    (r2, y, elim size [ inl e ↦ e | inr e ↦ e ])

-- What a call leaves that has taken `n` bytes off the front: the bytes it returned, and a reader
-- that is ready for the rest.
pub record Taken (k n : ℕ) (r r2 : BufferReader) : Type 0 where
  pub rest : unread r2 ≡ drop n (unread r)
  pub ready : IsReady (k - n) r2
  pub ahead : r.write_index ≤ r.read_index + k → r2.write_index ≤ r2.read_index + (k - n)
  pub at : r2.read_index ≡ r.read_index + n

Peeked-IsReady :
    (k n : ℕ) (r : BufferReader) (h : IsReady k r) {r2 : BufferReader}
    → Peeked n r h.is_valid r2
    → r2.len ≡ r.len
    → IsReady k r2
Peeked-IsReady k n r h y size = record {
  is_valid = y.ready.is_valid;
  fits = omega (arith, h.fits, size, y.ready.read_same);
  enough = omega (arith, h.enough, ap length y.ready.same);
}

pub Ready-Taken :
    (k n : ℕ) (r : BufferReader) {r2 : BufferReader}
    → IsReady k r
    → n ≤ k
    → Ready n r r2
    → r2.len ≡ r.len
    → Taken k n r (record r2 { read_index = r2.read_index + n })
Ready-Taken k n r h h' y size =
    let rest = Ready-moved-unread n r y in
    record {
      rest = rest;
      ready = record {
        is_valid = Ready-moved-IsValid n r y;
        fits = omega (arith, h.fits, size, y.read_same);
        enough = omega (arith, h.enough, ap length rest, length-drop {0} n (unread r));
      };
      ahead = λ a. omega (arith, y.pulled k h' a, y.read_same);
      at = omega (arith, y.read_same);
    }

Taken-zero :
    (k : ℕ) (r : BufferReader)
    → IsReady k r
    → Taken k 0 r (record r { read_index = r.read_index + 0 })
Taken-zero k r h =
    let stay : r.read_index + 0 ≡ r.read_index = omega arith in
    let all : k - 0 ≡ k = omega arith in
    rw stay (record { rest = refl; ready = rw all h; ahead = λ a. rw all a; at = sym stay })

pub peek-IsReady :
    (k n : ℕ) (r : BufferReader)
    → IsReady k r
    → n ≤ k
    → (r2 : BufferReader) × (peek n r ≡ (ok (take n (unread r)), r2))
      × (unread r2 ≡ unread r)
      × IsReady k r2
      × (r.write_index ≤ r.read_index + k → r2.write_index ≤ r2.read_index + k)
      × (r2.read_index ≡ r.read_index)
unfolding peek
peek-IsReady k zero r h le = (r, refl, refl, h, λ a. a, refl)
peek-IsReady k (suc n) r h le =
    let (r2, y, size) = IsReady-Peeked k (suc n) r h le (omega arith) in
    (
      r2,
      y.result,
      y.ready.same,
      Peeked-IsReady k (suc n) r h y size,
      λ a. omega (arith, y.ready.pulled k le a, y.ready.read_same),
      y.ready.read_same,
    )

-- `Next` of `n` bytes, where the reader is ready for `k` bytes and `n` is at most `k`, returns the
-- next `n` unread bytes and takes them off, and is ready for the rest of the `k`.
pub next-IsReady :
    (k n : ℕ) (r : BufferReader)
    → IsReady k r
    → n ≤ k
    → (r2 : BufferReader) × (next n r ≡ (ok (take n (unread r)), r2)) × Taken k n r r2
unfolding next advance
next-IsReady k zero r h le =
    (record r { read_index = r.read_index + 0 }, unfold peek in refl, Taken-zero k r h)
next-IsReady k (suc n) r h le =
    let (r2, y, size) = IsReady-Peeked k (suc n) r h le (omega arith) in
    (
      record r2 { read_index = r2.read_index + suc n },
      rw y.result,
      Ready-Taken k (suc n) r h le y.ready size,
    )

pub skip-IsReady :
    (k n : ℕ) (r : BufferReader)
    → IsReady k r
    → n ≤ k
    → (r2 : BufferReader) × (skip n r ≡ (ok tt, r2)) × Taken k n r r2
unfolding skip advance
skip-IsReady k zero r h le =
    (record r { read_index = r.read_index + 0 }, unfold peek in refl, Taken-zero k r h)
skip-IsReady k (suc n) r h le =
    let (r2, y, size) = IsReady-Peeked k (suc n) r h le (omega arith) in
    (
      record r2 { read_index = r2.read_index + suc n },
      rw y.result,
      Ready-Taken k (suc n) r h le y.ready size,
    )
