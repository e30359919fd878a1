-- ===== src/Util/Hex.antt =====
-- Hexadecimal strings and the validation of their forms (internal/util/hex.go), with
-- `hex.DecodeString` and `hex.EncodeToString` of the standard library.
use tos_pool.Prelude.{
  ℕ, ◌+◌, ◌-◌, ◌*◌, ◌/◌, ◌%◌, Bool, true, false, not, ◌&&◌, ◌||◌, Option, none, some, List, [], ◌∷◌,
  ◌++◌, ◌==◌, leb, if◌then◌else◌, length, take, drop, replicate,
}
use tos_pool.Prelude.Maps.{Bytes, codes, bytes_eq, bytes_Eq, nat_eq, member}

-- `strings.TrimPrefix(s, "0x")`
abbrev pub trim_prefix : Bytes → Bytes
trim_prefix s = if bytes_eq (take 2 s) (codes "0x") then drop 2 s else s

unfoldable pub hex_digit : ℕ → Option ℕ
hex_digit c =
    if leb b'0' c && leb c b'9'
    then some (c - b'0')
    else (if leb b'a' c && leb c b'f'
        then some (c - b'a' + 10)
        else (if leb b'A' c && leb c b'F' then some (c - b'A' + 10) else none))

abbrev pub join : Option ℕ → Option ℕ → Option (List ℕ) → Option (List ℕ)
join (some a) (some b) (some bs) = some ((a * 16 + b) ∷ bs)
join _ _ _ = none

-- `hex.DecodeString`: `none` is an error, of a digit or of an odd length.
unfoldable pub decode_string : Bytes → Option (List ℕ)
decode_string [] = some []
decode_string (c ∷ []) = none
decode_string (c ∷ (d ∷ s)) = join (hex_digit c) (hex_digit d) (decode_string s)

unfoldable pub hex_char : ℕ → ℕ
hex_char n = if leb n 9 then b'0' + n else b'a' + (n - 10)

unfoldable pub encode_to_string : List ℕ → Bytes
encode_to_string [] = []
encode_to_string (b ∷ bs) = hex_char (b / 16) ∷ (hex_char (b % 16) ∷ encode_to_string bs)

unfoldable pub hex_to_bytes : Bytes → Option (List ℕ)
hex_to_bytes s = decode_string (trim_prefix s)

unfoldable pub bytes_to_hex : List ℕ → Bytes
bytes_to_hex b = codes "0x" ++ encode_to_string b

unfoldable pub bytes_to_hex_no_pre : List ℕ → Bytes
bytes_to_hex_no_pre b = encode_to_string b

-- The copy from the last byte to the first.
abbrev pub copy_reversed : List ℕ → List ℕ → List ℕ
copy_reversed [] result = result
copy_reversed (b ∷ bs) result = copy_reversed bs (b ∷ result)

unfoldable pub reverse_bytes_copy : List ℕ → List ℕ
reverse_bytes_copy b = copy_reversed b []

unfoldable pub pad_bytes : List ℕ → ℕ → List ℕ
pad_bytes b size = if leb size (length b) then b else replicate (size - length b) 0 ++ b

abbrev pub is_some : Option (List ℕ) → Bool
is_some none = false
is_some (some b) = true

unfoldable pub is_valid_hex : Bytes → Bool
is_valid_hex s = is_some (decode_string (trim_prefix s))

unfoldable pub validate_nonce : Bytes → Bool
validate_nonce nonce =
    let digits = trim_prefix nonce in if length digits == 16 then is_valid_hex digits else false

unfoldable pub validate_hash : Bytes → Bool
validate_hash hash =
    let digits = trim_prefix hash in if length digits == 64 then is_valid_hex digits else false

abbrev pub all_bech32 : Bytes → Bool
all_bech32 [] = true
all_bech32 (c ∷ s) = member c (codes "023456789acdefghjklmnpqrstuvwxyz") && all_bech32 s

-- The runes of the source are the bytes here: a rune that is not ASCII is refused, as is each of
-- its bytes.
unfoldable pub validate_address : Bytes → Bool
validate_address addr =
    let prefix = take 4 addr in
    if not (bytes_eq prefix (codes "tos1") || bytes_eq prefix (codes "tst1"))
    then false
    else (if length addr == 63 then all_bech32 (drop 4 addr) else false)
