-- ===== src/Io/Buffer/Read.antt =====
-- Read of the buffered reader (pkg/io/reader/buffer.go) against the stream of its unread bytes.
use less.Base.{
  ℕ, ◌+◌, ◌-◌, ◌≤◌, ◌≡◌, refl, sym, ap, ◌∙◌, inl, inr, true, false, ◌++◌, Bytes, ok, arith, leb,
  leb→le, leb→gt, ltb, ◌==◌, ==_iff, Bool-cases, length, take, drop, drop-append_add, length-drop,
  length-take, length-append, take-append_add, drop_all, take-drop, Option-cases,
}
use less.Io.Source.{
  Got, got_ok, pending, read, read_full, read_full-got, read_full-error, read_full-pending, IsFront,
  read-IsFront,
}
use less.Io.Buffer.{
  BufferReader, direct, read_buffered, as_got, ensure_readable, advance, already, fill, received,
}
use less.Io.Buffer.Unread.{
  unread, buffered, IsValid, Ready, Ready-slice, want_of, slice-ok, length-buffered,
}
use less.Io.Buffer.Stream.{IsReady, Taken, Ready-Taken, IsReady-IsPrepared}

-- What `Read` of `n` bytes returned and left, of a reader that was ready for `k`.
pub record ReadTaken (k n : ℕ) (r : BufferReader) (g : Got) (r2 : BufferReader) : Type 0 where
  pub front : IsFront n (unread r) g (unread r2)
  pub ready : IsReady (k - length g.got) r2
  pub ahead : r.write_index ≤ r.read_index + k → r2.write_index ≤ r2.read_index + (k - length g.got)
  pub at : r2.read_index ≡ r.read_index + length g.got

unread_empty : (r : BufferReader) → r.read_index ≡ r.write_index → unread r ≡ pending r.decorator
unread_empty r e =
    ap (λ t. t ++ pending r.decorator)
      (drop_all r.read_index (take r.write_index r.mem)
        (omega (arith, length-take {0} r.write_index r.mem)))

module _ (k n : ℕ) (r : BufferReader) (h : IsReady k r) (le : n ≤ k)
    (same : r.read_index ≡ r.write_index) where
  abbrev g : Got
  g = (read n r.decorator).0

  direct-IsFront :
      (r2 : BufferReader)
      → unread r2 ≡ pending (read n r.decorator).1
      → IsFront n (unread r) g (unread r2)
  direct-IsFront r2 e = let f = read-IsFront n r.decorator in rw (e, unread_empty r same) f

  direct-ReadTaken : (r2 : BufferReader) × (direct n r ≡ (ok g, r2)) × ReadTaken k n r g r2
  unfolding direct
  direct-ReadTaken =
      let v = h.is_valid in
      elim (Option-cases g.error) [
        | inl fine ↦
            let moved = length g.got in
            let r2 = record r {
              decorator = (read n r.decorator).1;
              read_index = r.read_index + moved;
              write_index = r.write_index + moved;
            } in
            let e = unread_empty r2 (omega arith) in
            let f = direct-IsFront r2 e in
            (
              r2,
              rw (fine, direct),
              record {
                front = f;
                ready = record {
                  is_valid = record {
                    ordered = omega (arith, v.ordered);
                    within = v.within;
                    tight = v.tight;
                    kept = inr (omega arith);
                  };
                  fits = omega (arith, h.fits, f.small);
                  enough = omega (
                    arith,
                    h.enough,
                    ap length f.rest,
                    length-drop {0} (length g.got) (unread r),
                  );
                };
                ahead = λ a. omega arith;
                at = omega arith;
              },
            )
        | inr (x, bad) ↦
            let r2 = record r { decorator = (read n r.decorator).1 } in
            let e = unread_empty r2 same in
            let f = direct-IsFront r2 e in
            (
              r2,
              rw (bad, direct),
              record {
                front = f;
                ready = record {
                  is_valid = record {
                    ordered = omega (arith, v.ordered);
                    within = v.within;
                    tight = v.tight;
                    kept = inr (omega arith);
                  };
                  fits = omega (arith, h.fits, f.small);
                  enough = omega (
                    arith,
                    h.enough,
                    ap length f.rest,
                    length-drop {0} (length g.got) (unread r),
                  );
                };
                ahead = λ a. omega arith;
                at = omega (arith, f.clean bad);
              },
            )
      ]

-- A `Read` that returned a full buffer of `n` bytes.
Taken-ReadTaken :
    (k n : ℕ) (r r2 : BufferReader) (bs : Bytes)
    → IsReady k r
    → n ≤ k
    → bs ≡ take n (unread r)
    → Taken k n r r2
    → ReadTaken k n r (got_ok bs) r2
Taken-ReadTaken k n r r2 bs h le e t =
    let size : length bs ≡ n =
      ap length e ∙ omega (arith, length-take {0} n (unread r), h.enough) in
    record {
      front = record {
        small = omega (arith, size);
        covered = omega (arith, size, h.enough);
        front = e ∙ ap (λ m. take m (unread r)) (sym size);
        rest = t.rest ∙ ap (λ m. drop m (unread r)) (sym size);
        clean = λ bad. cc;
      };
      ready = rw size t.ready;
      ahead = rw size t.ahead;
      at = rw size t.at;
    }

module _ (want : ℕ) (r : BufferReader) (v : IsValid r) (stored : r.write_index ≤ r.len)
    (some_left : ltb 0 (r.write_index - r.read_index) ≡ true)
    (enough : want ≤ length (pending r.decorator)) where
  abbrev window : Bytes
  window =
      take (r.read_index + (r.write_index - r.read_index) - r.read_index) (drop r.read_index r.mem)

  -- The caller's buffer takes what was buffered and then what the connection delivers.
  fill_given-ok : fill true (r.write_index - r.read_index) want r ≡ (
    ok (window ++ (read_full want r.decorator).0.got),
    record r { decorator = (read_full want r.decorator).1; write_index = r.write_index + want },
  )
  unfolding fill
  fill_given-ok =
      let lo = r.read_index in
      let readable = r.write_index - r.read_index in
      let inside =
        slice-ok r.mem lo (lo + readable) (omega arith)
          (omega (arith, v.ordered, v.within, stored)) in
      rw some_left (rw inside (rw (received, read_full-error want r.decorator enough)))

module _ (k n : ℕ) (r : BufferReader) (h : IsReady k r) (le : n ≤ k)
    (ne : (r.read_index == r.write_index) ≡ false) where
  -- The bytes stand in the buffer already.
  read_have :
      leb n (r.write_index - r.read_index) ≡ true
      → (r2 : BufferReader) × (read_buffered n r ≡ (ok (got_ok (take n (unread r))), r2))
        × Taken k n r r2
  unfolding read_buffered ensure_readable already as_got advance
  read_have have =
      let y : Ready n r r = record {
        is_valid = h.is_valid;
        same = refl;
        read_same = refl;
        readable = omega (arith, leb→le _ _ have, h.is_valid.ordered);
        stored = ground (arith, h.is_valid.kept);
        pulled = λ k' le' a. a;
        front = refl;
        growable = refl;
      } in
      (
        record r { read_index = r.read_index + n },
        rw (ne, have, Ready-slice n r h.is_valid y (omega (arith, h.enough))),
        Ready-Taken k n r h le y refl,
      )

  abbrev want : ℕ
  want = want_of n r

  read_more :
      leb n (r.write_index - r.read_index) ≡ false
      → (r2 : BufferReader) × (read_buffered n r ≡ (ok (got_ok (take n (unread r))), r2))
        × Taken k n r r2
  unfolding read_buffered ensure_readable as_got advance
  read_more more =
      let readable = r.write_index - r.read_index in
      let less = leb→gt _ _ more in
      let v = h.is_valid in
      let p = IsReady-IsPrepared k n r h le (omega (arith)) in
      let some_left : ltb 0 readable ≡ true = ground (arith, v.ordered) in
      let stored = length-buffered r v in
      let all = length-append {0} (buffered r) (pending r.decorator) in
      let enough : want ≤ length (pending r.decorator) = omega (arith, stored, all, h.enough) in
      let n_is : n ≡ length (buffered r) + want = omega (arith, stored) in
      let window : take (r.read_index + readable - r.read_index) (drop r.read_index r.mem)
          ≡ buffered r =
        take-drop r.read_index (r.read_index + readable - r.read_index) r.write_index r.mem
          (omega (arith, v.ordered)) in
      let bytes : take (r.read_index + readable - r.read_index) (drop r.read_index r.mem)
            ++ (read_full want r.decorator).0.got
          ≡ take n (unread r) =
        ap (λ t. t ++ (read_full want r.decorator).0.got) window
        ∙ ap (λ t. buffered r ++ t) (read_full-got want r.decorator enough)
        ∙ sym (take-append_add n want (buffered r) (pending r.decorator) n_is) in
      let r2 = record r {
        decorator = (read_full want r.decorator).1;
        read_index = r.read_index + n;
        write_index = r.write_index + want;
      } in
      let empty = unread_empty r2 (omega (arith, v.ordered)) in
      let rest : unread r2 ≡ drop n (unread r) =
        empty
        ∙ read_full-pending want r.decorator enough
        ∙ sym (drop-append_add n want (buffered r) (pending r.decorator) n_is) in
      (
        r2,
        rw (ne, more, p.allowed, p.made)
            (rw (fill_given-ok want r v (ground (arith, v.kept)) some_left enough)
              (ap (λ b. (ok (got_ok b), r2)) bytes)),
        record {
          rest = rest;
          ready = record {
            is_valid = record {
              ordered = omega (arith, v.ordered);
              within = v.within;
              tight = v.tight;
              kept = inr (omega (arith, v.ordered));
            };
            fits = omega (arith, h.fits);
            enough = omega (arith, h.enough, ap length rest, length-drop {0} n (unread r));
          };
          ahead = λ a. omega (arith, v.ordered);
          at = refl;
        },
      )

-- `Read` of at most `n` bytes, where the reader is ready for `k` bytes and `n` is at most `k`,
-- returns a front of its unread bytes, leaves the others, and is ready for the rest of the `k`.
pub read-IsReady :
    (k n : ℕ) (r : BufferReader)
    → IsReady k r
    → n ≤ k
    → (g : Got) × (r2 : BufferReader) × (read_buffered n r ≡ (ok g, r2)) × ReadTaken k n r g r2
read-IsReady k n r h le = elim (Bool-cases (r.read_index == r.write_index)) [
  | inl empty ↦
      let (r2, e, t) = direct-ReadTaken k n r h le ((==_iff _ _).0 empty) in
      ((read n r.decorator).0, r2, unfold read_buffered in rw empty e, t)
  | inr some_buffered ↦ elim (Bool-cases (leb n (r.write_index - r.read_index))) [
    | inl have ↦
        let (r2, e, t) = read_have k n r h le some_buffered have in
        (got_ok (take n (unread r)), r2, e, Taken-ReadTaken k n r r2 _ h le refl t)
    | inr more ↦
        let (r2, e, t) = read_more k n r h le some_buffered more in
        (got_ok (take n (unread r)), r2, e, Taken-ReadTaken k n r r2 _ h le refl t)
  ]
]
