-- ===== src/Codec/Json.antt =====
-- The JSON payload codec (codec/payload/json.go). encoding/json is an argument; a message type is named
-- by a number.
use less.Base.{ℕ, ◌⊎◌, inl, inr, Option, none, some, Bytes, Error, Outcome, ok, panic}
use less.Codec.{
  Program, ret, fail, next, length_of, Marshal, done, give_up, write, Message, PayloadCodec,
}

-- json.Marshal, and json.Unmarshal into a new value of a message type, or into a map.
pub record Json : Type 0 where
  pub marshal : Message → Error ⊎ Bytes
  pub unmarshal : Option ℕ → Bytes → Error ⊎ Message

module _ (json : Json) where
  marshalled : Error ⊎ Bytes → Marshal
  marshalled (inl e) = give_up e
  marshalled (inr bs) = write bs done give_up

  unfoldable pub json_marshal : Message → Marshal
  unfolding marshalled
  json_marshal message = marshalled (json.marshal message)

  unfoldable pub parsed : Error ⊎ Message → Program Message
  parsed (inl e) = fail e
  parsed (inr m) = ret m

  unfoldable pub json_un_marshal : Option ℕ → Program Message
  unfolding parsed
  json_un_marshal msg_type =
      length_of λ n. next n (λ msg. parsed (json.unmarshal msg_type msg)) fail

  -- `msgType`, if it is set.
  unfoldable pub json_codec : Option ℕ → PayloadCodec
  unfolding json_marshal json_un_marshal
  json_codec msg_type = record { marshal = json_marshal; un_marshal = json_un_marshal msg_type }

  unfoldable pub new_json_codec : PayloadCodec
  unfolding json_codec
  new_json_codec = json_codec none

  -- The type of the value given, or of what it points to; nil panics.
  typed : Option ℕ → Outcome PayloadCodec
  typed none = panic
  typed (some msg_type) = ok (json_codec (some msg_type))

  unfoldable pub new_json_codec_with_type : Option ℕ → Outcome PayloadCodec
  unfolding typed
  new_json_codec_with_type msg = typed msg
