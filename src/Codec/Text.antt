-- ===== src/Codec/Text.antt =====
-- The text payload codec (codec/payload/text.go).
use less.Base.{message_not_string}
use less.Codec.{
  Program, ret, fail, next, length_of, Marshal, done, give_up, write, Message, text, raw,
  PayloadCodec,
}

unfoldable pub text_marshal : Message → Marshal
text_marshal (text s) = write s done give_up
text_marshal (raw bs) = write bs done give_up
text_marshal _ = give_up message_not_string

unfoldable pub text_un_marshal : Program Message
text_un_marshal = length_of λ n. next n (λ content. ret (text content)) fail

unfoldable pub text_codec : PayloadCodec
text_codec = record { marshal = text_marshal; un_marshal = text_un_marshal }
