-- ===== src/Codec/Delimiter.antt =====
-- The delimiter packet codec (codec/packet/delimiter.go).
pub mod Slack
pub mod Decode
pub mod Encode
pub mod RoundTrip
use less.Base.{
  ℕ, zero, suc, ◌+◌, ◌-◌, ◌&&◌, Bool, true, false, List, [], ◌∷◌, Bytes,
  msg_size_greater_than_max_length, ok, Method, ◌>>=◌, ◌>>◌, pure, throw, leb, ◌==◌, if◌then◌else◌,
  length, drop,
}
use less.Io.Reader.{Reader}
use less.Io.Limit.{new_limit_reader, limit_reader, u32}
use less.Io.Writer.{Writer}
use less.Codec.{run, run_marshal, Message, PayloadCodec, resume}
use less.Codec.Packet.{deferred}

-- `maxLength` is a uint32; `delimiterLength` is the length of `delimiter`.
pub record DelimiterCodec : Type 0 where
  pub max_length : ℕ
  pub delimiter_length : ℕ
  pub delimiter : Bytes
  pub auto_append_delimiter : Bool
  pub strip_delimiter : Bool

abbrev pub DelimiterOption : Type 0
DelimiterOption = DelimiterCodec → DelimiterCodec

pub disable_auto_append_delimiter : DelimiterOption
disable_auto_append_delimiter dc = record dc { auto_append_delimiter = false }

pub disable_strip_delimiter : DelimiterOption
disable_strip_delimiter dc = record dc { strip_delimiter = false }

apply_options : List DelimiterOption → DelimiterCodec → DelimiterCodec
apply_options [] dc = dc
apply_options (op ∷ ops) dc = apply_options ops (op dc)

unfoldable pub new_delimiter_codec : Bytes → ℕ → List DelimiterOption → DelimiterCodec
unfolding apply_options
new_delimiter_codec delimiter max_length ops = apply_options ops (record {
  max_length = max_length;
  delimiter_length = length delimiter;
  delimiter = delimiter;
  auto_append_delimiter = true;
  strip_delimiter = true;
})

abbrev pub bytes_eq : Bytes → Bytes → Bool
bytes_eq [] [] = true
bytes_eq [] (b ∷ bs) = false
bytes_eq (a ∷ as_) [] = false
bytes_eq (a ∷ as_) (b ∷ bs) = a == b && bytes_eq as_ bs

module _ {W : Type 0} (api : Writer W) where
  pub delimiter_encode : DelimiterCodec → PayloadCodec → Message → Method W (Unit {0})
  delimiter_encode dc payload_codec message = do
    run_marshal api (payload_codec.marshal message)
    (if dc.auto_append_delimiter then (do n ← api.write dc.delimiter; pure tt) else pure tt)
    api.flush

module _ {S : Type 0} (api : Reader S) (dc : DelimiterCodec) where
  -- The test of the loop's body: the bytes seen end in the delimiter.
  unfoldable pub ends_frame : ℕ → Bytes → Bool
  ends_frame size seen =
      leb dc.delimiter_length (length seen)
      && bytes_eq (drop (size - dc.delimiter_length) seen) dc.delimiter

  -- The loop over `length`, from `size` on, with so many rounds left of `maxLength`.
  pub find_end : ℕ → ℕ → Method S ℕ
  find_end zero size s = throw msg_size_greater_than_max_length s
  find_end (suc rounds) size s =
      resume (api.peek size s)
        (λ seen s'.
          let more = find_end rounds (size + 1) s' in
          if ends_frame size seen then (ok size, s') else more)
        (λ e. throw e)

  -- What the deferred function does behind the release.
  skip_delimiter : Method S (Unit {0})
  skip_delimiter s = if dc.strip_delimiter then api.skip dc.delimiter_length s else (ok tt, s)

  pub un_marshal_body : PayloadCodec → ℕ → Method S Message
  unfolding skip_delimiter
  un_marshal_body payload_codec size s =
      let body = if dc.strip_delimiter then size - dc.delimiter_length else size in
      deferred api skip_delimiter
        (run (limit_reader api) payload_codec.un_marshal (new_limit_reader s (u32 body)))

  pub delimiter_decode : PayloadCodec → Method S Message
  delimiter_decode payload_codec = find_end dc.max_length 1 >>= un_marshal_body payload_codec
