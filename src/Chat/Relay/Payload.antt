-- ===== src/Chat/Relay/Payload.antt =====
-- The payload of a message in cli/relay.py.
use priestly.Base.{◌≡◌, refl, ◌∙◌, ap, ap₂, Bytes, Option, some, List, Result, ok}
use priestly.Base as Base
use priestly.Python.Text.{Text, text_eq}
use priestly.Python.Utf8.{encode}
use priestly.Python.Utf8.Codec.{encode-ascii, decode-encode}
use priestly.Python.Dictionary.{HasUniqueKeys, get_item, map_values}
use priestly.Chat.Relay.{Json, message_fields, read_message, encode_message, decode_message}

message_fields-HasUniqueKeys : (text sender : Text) → HasUniqueKeys (message_fields text sender)
unfolding get_item text_eq
message_fields-HasUniqueKeys text sender = (refl, (refl, tt))

module _ (json : Json) where
  read_message-message_fields :
      (text sender : Text)
      → read_message json (some (map_values json.string (message_fields text sender)))
        ≡ ok (text, sender)
  unfolding get_item text_eq
  read_message-message_fields text sender =
      ap₂ (λ (a b : Text). ok (a, b)) (json.str_string text) (json.str_string sender)

  pub decode_message-encode_message :
      (text sender : Text)
      → (plaintext : Bytes) × (encode_message json text sender ≡ ok plaintext)
        × (decode_message json plaintext ≡ ok (text, sender))
  unfolding encode_message decode_message
  decode_message-encode_message text sender =
      let t : Text = json.dumps (message_fields text sender) in
      let e : encode t ≡ ok t = encode-ascii t (json.dumps_ascii (message_fields text sender)) in
      let (obj, loaded, pairs) =
        json.loads_dumps (message_fields text sender) (message_fields-HasUniqueKeys text sender) in
      (
        t,
        e,
        ap
              (λ (r : Result Text).
                Base.◌>>=◌ r λ u. Base.◌>>=◌ (json.loads u) λ o. read_message json (json.as_dict o))
              (decode-encode t t e)
            ∙ ap (λ (r : Result json.Value). Base.◌>>=◌ r λ o. read_message json (json.as_dict o))
                loaded
            ∙ ap (read_message json) pairs
            ∙ read_message-message_fields text sender,
      )
