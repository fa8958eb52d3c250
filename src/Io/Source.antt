-- ===== src/Io/Source.antt =====
-- What a connection delivers. Each `Read` of the standard library's io.Reader takes at most one
-- chunk, as a TCP socket does; behind the last chunk the peer has closed, and `Read` returns
-- io.EOF. `read_full` is io.ReadFull, the loop that calls `Read` until the buffer is full.
use less.Base.{
  ℕ, zero, suc, ◌+◌, ◌-◌, ◌≤◌, ◌<◌, ◌≡◌, refl, ap, ◌∙◌, sym, List, [], ◌∷◌, ◌++◌, Option, none,
  some, true, arith, Bytes, Error, eof, unexpected_eof, leb, leb→le, leb→gt, if◌then◌else◌, length,
  take, drop, Bool-cases, inl, inr, take_all, take-append_add, take-append_le, drop-append_le,
  drop-append_add, le→leb, length-append, length-take, take_all,
}

pub record Source : Type 0 where
  pub chunks : List Bytes

abbrev pub flatten : List Bytes → Bytes
flatten [] = []
flatten (c ∷ cs) = c ++ flatten cs

-- The bytes that the source still holds, in order.
abbrev pub pending : Source → Bytes
pending s = flatten s.chunks

abbrev pub source : List Bytes → Source
source cs = record { chunks = cs }

-- The bytes that a `Read` put into the caller's buffer, and the error it returned beside their
-- number, if any.
pub record Got : Type 0 where
  pub got : Bytes
  pub error : Option Error

abbrev pub got_ok : Bytes → Got
got_ok bs = record { got = bs; error = none }

read_chunks : ℕ → List Bytes → Got × List Bytes
read_chunks n [] = (record { got = []; error = some eof }, [])
read_chunks n (c ∷ cs) =
    if leb (length c) n then (got_ok c, cs) else (got_ok (take n c), drop n c ∷ cs)

-- `Read(buff)` with a buffer of `n` bytes.
unfoldable pub read : ℕ → Source → Got × Source
unfolding read_chunks
read n s = let r = read_chunks n s.chunks in (r.0, source r.1)

abbrev full_error : ℕ → Error
full_error zero = eof
full_error (suc k) = unexpected_eof

-- The loop of io.ReadFull: `have` counts what is read, `n` what is still wanted.
read_full_chunks : ℕ → ℕ → List Bytes → Got × List Bytes
read_full_chunks have zero cs = (got_ok [], cs)
read_full_chunks have (suc k) [] = (record { got = []; error = some (full_error have) }, [])
read_full_chunks have (suc k) (c ∷ cs) =
    let rest = read_full_chunks (have + length c) (suc k - length c) cs in
    if leb (length c) (suc k)
    then (record { got = c ++ rest.0.got; error = rest.0.error }, rest.1)
    else (got_ok (take (suc k) c), drop (suc k) c ∷ cs)

-- `io.ReadFull(source, buff)` with a buffer of `n` bytes.
unfoldable pub read_full : ℕ → Source → Got × Source
unfolding read_full_chunks
read_full n s = let r = read_full_chunks 0 n s.chunks in (r.0, source r.1)

record Full (n : ℕ) (cs : List Bytes) (r : Got × List Bytes) : Type 0 where
  bytes : r.0.got ≡ take n (flatten cs)
  fine : r.0.error ≡ none
  left : flatten r.1 ≡ drop n (flatten cs)

read_full_chunks-Full :
    (have n : ℕ) (cs : List Bytes)
    → n ≤ length (flatten cs)
    → Full n cs (read_full_chunks have n cs)
unfolding read_full_chunks
read_full_chunks-Full have zero cs h = record { bytes = refl; fine = refl; left = refl }
read_full_chunks-Full have (suc k) [] h = absurd (omega arith)
read_full_chunks-Full have (suc k) (c ∷ cs) h = elim (Bool-cases (leb (length c) (suc k))) [
  | inl short ↦
      let fits = leb→le _ _ short in
      let m = suc k - length c in
      let e : suc k ≡ length c + m = omega arith in
      let rest =
        read_full_chunks-Full (have + length c) m cs
          (omega (arith, length-append {0} c (flatten cs))) in
      rw short (record {
        bytes = ap (λ t. c ++ t) rest.bytes ∙ sym (take-append_add (suc k) m c (flatten cs) e);
        fine = rest.fine;
        left = rest.left ∙ sym (drop-append_add (suc k) m c (flatten cs) e);
      })
  | inr long ↦
      let fits : suc k ≤ length c = omega (arith, leb→gt _ _ long) in
      rw long (record {
        bytes = sym (take-append_le (suc k) c (flatten cs) fits);
        fine = refl;
        left = sym (drop-append_le (suc k) c (flatten cs) fits);
      })
]

module _ (n : ℕ) (s : Source) (enough : n ≤ length (pending s)) where
  -- With enough bytes pending, io.ReadFull fills the buffer with the next ones, however they are
  -- cut into chunks.
  pub read_full-got : (read_full n s).0.got ≡ take n (pending s)
  unfolding read_full
  read_full-got = (read_full_chunks-Full 0 n s.chunks enough).bytes

  pub read_full-error : (read_full n s).0.error ≡ none
  unfolding read_full
  read_full-error = (read_full_chunks-Full 0 n s.chunks enough).fine

  pub read_full-pending : pending (read_full n s).1 ≡ drop n (pending s)
  unfolding read_full
  read_full-pending = (read_full_chunks-Full 0 n s.chunks enough).left

read_full_chunks-short :
    (have n : ℕ) (cs : List Bytes)
    → length (flatten cs) < n
    → (e : Error) × ((read_full_chunks have n cs).0.error ≡ some e)
unfolding read_full_chunks
read_full_chunks-short have zero cs h = absurd (omega arith)
read_full_chunks-short have (suc k) [] h = (full_error have, refl)
read_full_chunks-short have (suc k) (c ∷ cs) h =
    let total = length-append {0} c (flatten cs) in
    let short : leb (length c) (suc k) ≡ true = le→leb _ _ (omega arith) in
    rw short (read_full_chunks-short (have + length c) (suc k - length c) cs (omega arith))

-- With too few bytes pending, io.ReadFull returns an error.
pub read_full-short :
    (n : ℕ) (s : Source) → length (pending s) < n → (e : Error) × ((read_full n s).0.error ≡ some e)
unfolding read_full
read_full-short n s h = read_full_chunks-short 0 n s.chunks h

-- What a `Read` of at most `n` bytes returns: a front of the bytes `s`, which leaves `s'`;
-- beside an error there are none.
pub record IsFront (n : ℕ) (s : Bytes) (g : Got) (s' : Bytes) : Type 0 where
  pub small : length g.got ≤ n
  pub covered : length g.got ≤ length s
  pub front : g.got ≡ take (length g.got) s
  pub rest : s' ≡ drop (length g.got) s
  pub clean : {e : Error} → g.error ≡ some e → length g.got ≡ 0

read_chunks-IsFront :
    (n : ℕ) (cs : List Bytes)
    → IsFront n (flatten cs) (read_chunks n cs).0 (flatten (read_chunks n cs).1)
unfolding read_chunks
read_chunks-IsFront n [] = record {
  small = omega arith;
  covered = omega arith;
  front = refl;
  rest = refl;
  clean = λ _. refl;
}
read_chunks-IsFront n (c ∷ cs) =
    let total = length-append {0} c (flatten cs) in
    elim (Bool-cases (leb (length c) n)) [
      | inl short ↦ rw short (record {
        small = leb→le _ _ short;
        covered = omega (arith, total);
        front = sym (
            take-append_le (length c) c (flatten cs) (omega arith)
            ∙ take_all (length c) c (omega arith));
        rest = sym (drop-append_add (length c) 0 c (flatten cs) (omega arith));
        clean = λ bad. cc;
      })
      | inr long ↦
          let e : length (take n c) ≡ n = omega (arith, length-take {0} n c, leb→gt _ _ long) in
          let fits : n ≤ length c = omega (arith, leb→gt _ _ long) in
          rw long (record {
            small = omega (arith, e);
            covered = omega (arith, e, total);
            front =
                sym (ap (λ t. take t (c ++ flatten cs)) e ∙ take-append_le n c (flatten cs) fits);
            rest =
                sym (ap (λ t. drop t (c ++ flatten cs)) e ∙ drop-append_le n c (flatten cs) fits);
            clean = λ bad. cc;
          })
    ]

pub read-IsFront : (n : ℕ) (s : Source) → IsFront n (pending s) (read n s).0 (pending (read n s).1)
unfolding read
read-IsFront n s = read_chunks-IsFront n s.chunks
