-- ===== src/Codec.antt =====
-- Codec interfaces (codec/codec.go). An implementation of `PayloadCodec` reaches the reader or the
-- writer that it is given only through the methods, so `UnMarshal` and `Marshal` are trees of such
-- calls: the next call may depend on what the earlier ones returned.
pub mod Frame
pub mod Text
pub mod Json
pub mod LessCodec
pub mod Packet
pub mod Delimiter
use less.Base.{ℕ, Bytes, Error, Outcome, ok, err, panic, hang, Method}
use less.Io.Source.{Got}
use less.Io.Reader.{Reader}
use less.Io.Writer.{Region, Writer, put_uint32, put_uint16}

pub data Program (A : Type 0) : Type 0 where
  ret : A → Program A
  fail : Error → Program A
  read : ℕ → (Got → Program A) → Program A
  next : ℕ → (Bytes → Program A) → (Error → Program A) → Program A
  peek : ℕ → (Bytes → Program A) → (Error → Program A) → Program A
  skip : ℕ → Program A → (Error → Program A) → Program A
  length_of : (ℕ → Program A) → Program A

-- The call returned: what follows goes on with the value or the error; a panic unwinds it.
abbrev pub resume :
    {S A B : Type 0} → Outcome A × S → (A → Method S B) → (Error → Method S B) → Outcome B × S
resume (ok a, s) f g = f a s
resume (err e, s) f g = g e s
resume (panic, s) f g = (panic, s)
resume (hang, s) f g = (hang, s)

module _ {S : Type 0} (api : Reader S) where
  unfoldable pub run : {A : Type 0} → Program A → Method S A
  run (ret a) s = (ok a, s)
  run (fail e) s = (err e, s)
  run (read n f) s = resume (api.read n s) (λ g. run (f g)) (λ e s'. (err e, s'))
  run (next n f g) s = resume (api.next n s) (λ b. run (f b)) (λ e. run (g e))
  run (peek n f g) s = resume (api.peek n s) (λ b. run (f b)) (λ e. run (g e))
  run (skip n f g) s = resume (api.skip n s) (λ _. run f) (λ e. run (g e))
  run (length_of f) s = run (f (api.length_of s)) s

-- What `Marshal` does with its writer. `put_uint32` writes through a slice that `malloc` returned.
pub data Marshal : Type 0 where
  done : Marshal
  give_up : Error → Marshal
  write : Bytes → Marshal → (Error → Marshal) → Marshal
  malloc : ℕ → (Region → Marshal) → (Error → Marshal) → Marshal
  put_32 : Region → ℕ → Marshal → Marshal
  put_16 : Region → ℕ → Marshal → Marshal

module _ {W : Type 0} (api : Writer W) where
  unfoldable pub run_marshal : Marshal → Method W (Unit {0})
  run_marshal done w = (ok tt, w)
  run_marshal (give_up e) w = (err e, w)
  run_marshal (write bs f g) w =
      resume (api.write bs w) (λ _. run_marshal f) (λ e. run_marshal (g e))
  run_marshal (malloc n f g) w =
      resume (api.malloc n w) (λ r. run_marshal (f r)) (λ e. run_marshal (g e))
  run_marshal (put_32 r v f) w =
      resume (put_uint32 api r v w) (λ _. run_marshal f) (λ e w'. (err e, w'))
  run_marshal (put_16 r v f) w =
      resume (put_uint16 api r v w) (λ _. run_marshal f) (λ e w'. (err e, w'))

-- internal/msg.LessMessage, with a uint32 and a uint16.
pub record LessMessage : Type 0 where
  pub magic : ℕ
  pub msg_type : ℕ
  pub body : Bytes

-- The dynamic types that a message is tested for: string, []byte, *LessMessage, and the others.
pub data Message : Type 0 where
  text : Bytes → Message
  raw : Bytes → Message
  own : LessMessage → Message
  other : ℕ → Message

pub record PayloadCodec : Type 0 where
  pub marshal : Message → Marshal
  pub un_marshal : Program Message
