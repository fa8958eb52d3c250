-- ===== src/Codec/Frame.antt =====
-- Whatever a payload codec does with a limited reader (pkg/io/reader/limit.go) over a stream, it
-- stays inside the frame.
use less.Base.{ℕ, Bytes, Error, Outcome, ok, err, panic, hang, Method}
use less.Io.Reader.{Reader, Stream}
use less.Io.Limit.{LimitReader, limit_reader}
use less.Io.Limit.Laws.{
  InFrame, Settles, limit_read-Settles, limit_next-Settles, limit_peek-Settles, limit_skip-Settles,
}
use less.Codec.{Program, ret, fail, read, next, peek, skip, length_of, run, resume}

module _ {S : Type 0} {api : Reader S} (stream : Stream api) (limit : ℕ) (bytes : Bytes) where
  abbrev In : LimitReader S → Type 0
  In l = InFrame stream limit bytes l

  abbrev Ends : {A : Type 0} → Outcome A × LimitReader S → Type 0
  Ends o = Settles stream limit bytes o

  resume-Settles :
      {A B : Type 0} (o : Outcome A × LimitReader S) (f : A → Method (LimitReader S) B)
      (g : Error → Method (LimitReader S) B)
      → Ends o
      → ((a : A) (l : LimitReader S) → In l → Ends (f a l))
      → ((e : Error) (l : LimitReader S) → In l → Ends (g e l))
      → Ends (resume o f g)
  resume-Settles (ok a, l) f g h next_ok next_err = next_ok a l h.inside
  resume-Settles (err e, l) f g h next_ok next_err = next_err e l h.inside
  resume-Settles (panic, l) f g h next_ok next_err = absurd h.returned
  resume-Settles (hang, l) f g h next_ok next_err = absurd h.returned

  -- Whatever calls a program makes of a limited reader that is inside a frame of a stream, it
  -- returns, and the reader is still inside the frame.
  pub run-Settles :
      {A : Type 0} (p : Program A) (l : LimitReader S) → In l → Ends (run (limit_reader api) p l)
  unfolding run limit_reader
  run-Settles (ret a) l i = record { returned = tt; inside = i }
  run-Settles (fail e) l i = record { returned = tt; inside = i }
  run-Settles (read n f) l i =
      resume-Settles _ _ _ (limit_read-Settles stream limit bytes n l i)
        (λ a l' i'. run-Settles (f a) l' i') (λ e l' i'. record { returned = tt; inside = i' })
  run-Settles (next n f g) l i =
      resume-Settles _ _ _ (limit_next-Settles stream limit bytes n l i)
        (λ a l' i'. run-Settles (f a) l' i') (λ e l' i'. run-Settles (g e) l' i')
  run-Settles (peek n f g) l i =
      resume-Settles _ _ _ (limit_peek-Settles stream limit bytes n l i)
        (λ a l' i'. run-Settles (f a) l' i') (λ e l' i'. run-Settles (g e) l' i')
  run-Settles (skip n f g) l i =
      resume-Settles _ _ _ (limit_skip-Settles stream limit bytes n l i)
        (λ a l' i'. run-Settles f l' i') (λ e l' i'. run-Settles (g e) l' i')
  run-Settles (length_of f) l i = run-Settles (f _) l i
