-- ===== src/Codec/LessCodec.antt =====
-- The payload codec of the framework's own messages (internal/msg/codec.go, internal/msg/message.go).
pub mod Decode
use less.Base.{ℕ, ◌+◌, ◌-◌, ◌*◌, ◌^◌, Bytes, ltb, ◌==◌, if◌then◌else◌, ◌∷◌}
use less.Codec.{
  Program, ret, fail, next, peek, skip, length_of, Marshal, done, give_up, write, malloc, put_32,
  put_16, LessMessage, Message, text, raw, own, other, PayloadCodec,
}

abbrev pub magic_number : ℕ
magic_number = 76698383

abbrev pub call : ℕ
call = 1

abbrev pub reply : ℕ
reply = 2

abbrev pub oneway : ℕ
oneway = 3

abbrev pub magic_length : ℕ
magic_length = 4

abbrev pub type_length : ℕ
type_length = 2

unfoldable pub new_message : ℕ → Bytes → LessMessage
new_message msg_type body = record { magic = magic_number; msg_type = msg_type; body = body }

-- encoding/binary's BigEndian.Uint32 and Uint16, of slices that are long enough.
abbrev pub un_be32 : Bytes → ℕ
un_be32 (a ∷ b ∷ c ∷ d ∷ rest) = a * 2 ^ 24 + b * 2 ^ 16 + c * 2 ^ 8 + d
un_be32 _ = 0

abbrev pub un_be16 : Bytes → ℕ
un_be16 (a ∷ b ∷ rest) = a * 2 ^ 8 + b
un_be16 _ = 0

unfoldable pub less_marshal : PayloadCodec → Message → Marshal
less_marshal c (own m) =
    malloc magic_length
      (λ magic. put_32 magic m.magic (
        malloc type_length (λ msg_type. put_16 msg_type m.msg_type (write m.body done give_up))
          give_up))
      give_up
less_marshal c (text s) = c.marshal (text s)
less_marshal c (raw bs) = c.marshal (raw bs)
less_marshal c (other k) = c.marshal (other k)

-- What follows the magic number.
unfoldable pub less_body : Program Message
less_body =
    next type_length
      (λ msg_type. length_of λ n.
        next (n - magic_length - type_length)
          (λ body.
            ret (own (record { magic = magic_number; msg_type = un_be16 msg_type; body = body })))
          fail)
      fail

unfoldable pub less_un_marshal : PayloadCodec → Program Message
unfolding less_body
less_un_marshal c = length_of λ n.
    if ltb n (magic_length + type_length)
    then c.un_marshal
    else peek magic_length
        (λ magic.
          if un_be32 magic == magic_number
          then skip magic_length less_body (λ _. less_body)
          else c.un_marshal)
        fail

unfoldable pub less_codec : PayloadCodec → PayloadCodec
unfolding less_marshal less_un_marshal
less_codec c = record { marshal = less_marshal c; un_marshal = less_un_marshal c }
