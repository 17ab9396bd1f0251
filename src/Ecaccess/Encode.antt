-- ===== src/Ecaccess/Encode.antt =====
-- Encodings of Python's library that the ECaccess client uses: UTF-8, `urllib.parse.quote` and Base64.
-- Bytes are numbers below 256.
use hpc_relay.Base.{
  ℕ, ◌+◌, ◌-◌, ◌*◌, ◌/◌, ◌%◌, [], ◌∷◌, ◌++◌, ◌||◌, ◌&&◌, if◌then◌else◌, ◌==◌, ltb, leb,
}
use hpc_relay.Text.{Text}

-- One character in UTF-8.
utf8_char : ℕ → Text
utf8_char c =
    if ltb c 0x80
    then c ∷ []
    else if ltb c 0x800
    then (0xc0 + c / 64) ∷ (0x80 + c % 64) ∷ []
    else if ltb c 0x10000
    then (0xe0 + c / 4096) ∷ (0x80 + c / 64 % 64) ∷ (0x80 + c % 64) ∷ []
    else (0xf0 + c / 262144) ∷ (0x80 + c / 4096 % 64) ∷ (0x80 + c / 64 % 64) ∷ (0x80 + c % 64) ∷ []

-- s.encode("utf-8")
unfoldable pub utf8 : Text → Text
unfolding utf8_char
utf8 [] = []
utf8 (c ∷ s) = utf8_char c ++ utf8 s

hex_digit : ℕ → ℕ
hex_digit d = if ltb d 10 then b'0' + d else 55 + d

percent : Text → Text
unfolding hex_digit
percent [] = []
percent (c ∷ s) =
    let rest = percent s in
    if (leb b'A' c && leb c b'Z')
      || (leb b'a' c && leb c b'z')
      || (leb b'0' c && leb c b'9')
      || c == b'_'
      || c == b'.'
      || c == b'-'
      || c == b'~'
      || c == b'/'
    then c ∷ rest
    else b'%' ∷ hex_digit (c / 16) ∷ hex_digit (c % 16) ∷ rest

-- urllib.parse.quote(s)
unfoldable pub percent_quote : Text → Text
unfolding utf8 percent
percent_quote s = percent (utf8 s)

base64_digit : ℕ → ℕ
base64_digit d =
    if ltb d 26
    then 65 + d
    else if ltb d 52
    then 71 + d
    else if ltb d 62
    then d + 48 - 52
    else if d == 62
    then b'+'
    else b'/'

-- base64.b64encode(bytes)
unfoldable pub b64encode : Text → Text
unfolding base64_digit
b64encode [] = []
b64encode (a ∷ []) = base64_digit (a / 4) ∷ base64_digit (a % 4 * 16) ∷ b'=' ∷ b'=' ∷ []
b64encode (a ∷ b ∷ []) =
    base64_digit (a / 4)
    ∷ base64_digit (a % 4 * 16 + b / 16)
    ∷ base64_digit (b % 16 * 4)
    ∷ b'='
    ∷ []
b64encode (a ∷ b ∷ c ∷ s) =
    base64_digit (a / 4)
    ∷ base64_digit (a % 4 * 16 + b / 16)
    ∷ base64_digit (b % 16 * 4 + c / 64)
    ∷ base64_digit (c % 64)
    ∷ b64encode s
