-- ===== src/Protocol/Tokens.antt =====
-- crates/parler-protocol/src/hub.rs: the estimate of communication tokens.
use parler_protocol.Prelude.{ℕ, ◌+◌, ◌/◌, List, [], ◌∷◌, if◌then◌else◌, length}
use parler_protocol.Protocol.Parts.{
  Json, Items, Fields, null, bool, number, string, array, object, nil, cons, end, field, Part, text,
  value, extension, is_message_sig_part,
}

-- `ceil(chars / 4)`.
unfoldable pub chars_to_tokens : ℕ → ℕ
chars_to_tokens chars = (chars + 3) / 4

unfoldable mutual
  pub json_string_chars : Json → ℕ
  json_string_chars null = 0
  json_string_chars (bool b) = 0
  json_string_chars (number n) = 0
  json_string_chars (string s) = length s
  json_string_chars (array xs) = items_chars xs
  json_string_chars (object fs) = fields_chars fs

  pub items_chars : Items → ℕ
  items_chars nil = 0
  items_chars (cons x xs) = json_string_chars x + items_chars xs

  pub fields_chars : Fields → ℕ
  fields_chars end = 0
  fields_chars (field k v fs) = json_string_chars v + fields_chars fs

part_chars : Part → ℕ
part_chars (text t) = length t
part_chars (value v) = json_string_chars v
part_chars (extension kind fields) =
    if is_message_sig_part (extension kind fields) then 0 else fields_chars fields

parts_chars : List Part → ℕ
unfolding part_chars
parts_chars [] = 0
parts_chars (p ∷ ps) = part_chars p + parts_chars ps

unfoldable pub estimate_message_tokens : List Part → ℕ
unfolding parts_chars
estimate_message_tokens ps = chars_to_tokens (parts_chars ps)
