-- ===== src/Util/Encoding.antt =====
-- Round trips of hexadecimal strings, and what a valid nonce decodes to (internal/util/hex.go).
use native.Mathlib.Nat.{div-add-mod}
use tos_pool.Prelude.{
  ℕ, suc, ◌+◌, ◌*◌, ◌/◌, ◌%◌, ◌<◌, ◌≡◌, refl, sym, ap, ◌∙◌, true, false, Option, none, some, List,
  [], ◌∷◌, arith, length, take,
}
use tos_pool.Prelude.Maps.{Bytes, codes, bytes_eq}
use tos_pool.Util.Hex.{
  hex_digit, hex_char, join, decode_string, encode_to_string, hex_to_bytes, bytes_to_hex,
  trim_prefix, is_valid_hex, is_some, validate_nonce,
}

abbrev pub AllBytes : List ℕ → Type 0
AllBytes [] = Unit {0}
AllBytes (b ∷ bs) = (b < 256) × AllBytes bs

hex_digit-hex_char : (n : ℕ) → n < 16 → hex_digit (hex_char n) ≡ some n
unfolding hex_digit hex_char
hex_digit-hex_char n h = ground arith

decode_string-encode_to_string :
    (bs : List ℕ) → AllBytes bs → decode_string (encode_to_string bs) ≡ some bs
unfolding decode_string encode_to_string
decode_string-encode_to_string [] h = refl
decode_string-encode_to_string (b ∷ bs) h =
    let value : b / 16 * 16 + b % 16 ≡ b = omega (arith, div-add-mod b 16) in
    rw
      (
        hex_digit-hex_char (b / 16) (omega (arith, h.0)),
        hex_digit-hex_char (b % 16) (omega arith),
        decode_string-encode_to_string bs h.1,
      )
      (ap (λ x. some (x ∷ bs)) value)

-- The string that `BytesToHex` makes of bytes decodes to the same bytes, by `HexToBytes`.
hex_to_bytes-bytes_to_hex : (bs : List ℕ) → AllBytes bs → hex_to_bytes (bytes_to_hex bs) ≡ some bs
unfolding hex_to_bytes bytes_to_hex
hex_to_bytes-bytes_to_hex bs h = decode_string-encode_to_string bs h

length-join :
    (a b : Option ℕ) (o : Option (List ℕ)) (bs : List ℕ)
    → join a b o ≡ some bs
    → (cs : List ℕ) × ((o ≡ some cs) × (length bs ≡ suc (length cs)))
length-join none b o bs e = cc
length-join (some a) none o bs e = cc
length-join (some a) (some b) none bs e = cc
length-join (some a) (some b) (some cs) bs e = (cs, (refl, cc))

length-decode_string :
    (s : Bytes) (bs : List ℕ) → decode_string s ≡ some bs → length s ≡ 2 * length bs
unfolding decode_string
length-decode_string [] [] e = refl
length-decode_string [] (b ∷ bs) e = cc
length-decode_string (c ∷ []) bs e = cc
length-decode_string (c ∷ (d ∷ s)) bs e =
    let (cs, (e', len)) = length-join (hex_digit c) (hex_digit d) (decode_string s) bs e in
    omega (arith, length-decode_string s cs e', len)

decodes : (o : Option (List ℕ)) → is_some o ≡ true → (bs : List ℕ) × (o ≡ some bs)
decodes none e = cc
decodes (some bs) e = (bs, refl)

trim_once : (s : Bytes) → bytes_eq (take 2 s) (codes "0x") ≡ false → trim_prefix s ≡ s
trim_once s e = rw e refl

sixteen : (s : Bytes) → validate_nonce s ≡ true → length (trim_prefix s) ≡ 16
unfolding validate_nonce
sixteen s e = ground (arith, e)

valid :
    (s : Bytes)
    → validate_nonce s ≡ true
    → bytes_eq (take 2 (trim_prefix s)) (codes "0x") ≡ false
    → is_some (decode_string (trim_prefix s)) ≡ true
unfolding validate_nonce is_valid_hex
valid s e once =
    let t = trim_prefix s in
    let len = sixteen s e in
    ap (λ x. is_some (decode_string x)) (sym (trim_once t once)) ∙ sym (rw len refl) ∙ e

-- A valid nonce decodes to 8 bytes, if no second prefix "0x" follows the first.
pub validate_nonce-hex_to_bytes :
    (s : Bytes)
    → validate_nonce s ≡ true
    → bytes_eq (take 2 (trim_prefix s)) (codes "0x") ≡ false
    → (bs : List ℕ) × ((hex_to_bytes s ≡ some bs) × (length bs ≡ 8))
unfolding hex_to_bytes
validate_nonce-hex_to_bytes s e once =
    let len = sixteen s e in
    let (bs, e') = decodes (decode_string (trim_prefix s)) (valid s e once) in
    (bs, (e', omega (arith, length-decode_string (trim_prefix s) bs e', len)))
