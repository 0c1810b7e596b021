-- ===== src/Names.antt =====
-- utils.go: random names. A Go string is the list of its bytes, and what `rand.Read` gives is an
-- argument: the bytes of each draw, or none where it fails. `base64.RawURLEncoding` is of the
-- standard library.
pub mod Safe
use fleeting_plugin_vcd.Base.{
  ℕ, zero, suc, ◌+◌, ◌-◌, ◌*◌, ◌/◌, ◌%◌, ltb, leb, ◌==◌, if◌then◌else◌, Bool, ◌&&◌, ◌≡◌, refl,
  Option, none, some, List, [], ◌∷◌, ◌++◌, length,
}

-- A digit of base64, as its byte.
unfoldable pub url_char : ℕ → ℕ
url_char d =
    if ltb d 26
    then d + b'A'
    else if ltb d 52
    then d - 26 + b'a'
    else if ltb d 62
    then d - 52 + b'0'
    else if d == 62
    then b'-'
    else b'_'

-- `base64.RawURLEncoding.EncodeToString`
unfoldable pub encode_url : List ℕ → List ℕ
unfolding url_char
encode_url [] = []
encode_url (a ∷ []) = url_char (a / 4) ∷ url_char (a % 4 * 16) ∷ []
encode_url (a ∷ b ∷ []) =
    url_char (a / 4) ∷ url_char (a % 4 * 16 + b / 16) ∷ url_char (b % 16 * 4) ∷ []
encode_url (a ∷ b ∷ c ∷ bytes) =
    url_char (a / 4)
    ∷ url_char (a % 4 * 16 + b / 16)
    ∷ url_char (b % 16 * 4 + c / 64)
    ∷ url_char (c % 64)
    ∷ encode_url bytes

-- `strings.ReplaceAll` with the empty text, of one byte.
unfoldable pub remove_byte : ℕ → List ℕ → List ℕ
remove_byte k [] = []
remove_byte k (c ∷ cs) = let rest = remove_byte k cs in if c == k then rest else c ∷ rest

unfoldable pub lower_byte : ℕ → ℕ
lower_byte c = if leb b'A' c && leb c b'Z' then c + 32 else c

-- `strings.ToLower` of ASCII text.
unfoldable pub lower_bytes : List ℕ → List ℕ
unfolding lower_byte
lower_bytes [] = []
lower_bytes (c ∷ cs) = lower_byte c ∷ lower_bytes cs

-- The text that the loop makes of a draw.
unfoldable pub usable_text : List ℕ → List ℕ
unfolding lower_bytes
usable_text bytes = lower_bytes (remove_byte b'-' (remove_byte b'_' (encode_url bytes)))

abbrev pub take : ℕ → List ℕ → List ℕ
take zero cs = []
take (suc n) [] = []
take (suc n) (c ∷ cs) = c ∷ take n cs

-- The loop of `GenerateRandomStringVMNameSafe`, from the text `str` on: none where the draws run out
-- before it ends, and `some none` where it returns an error.
unfoldable pub draw_text : ℕ → List ℕ → List (Option (List ℕ)) → Option (Option (List ℕ))
draw_text size str [] = if ltb (length str) size then none else some (some (take size str))
draw_text size str (none ∷ draws) =
    if ltb (length str) size then some none else some (some (take size str))
draw_text size str (some bytes ∷ draws) =
    let later = draw_text size (usable_text bytes) draws in
    if ltb (length str) size then later else some (some (take size str))

-- `GenerateRandomStringVMNameSafe`
unfoldable pub vm_name_safe : ℕ → List (Option (List ℕ)) → Option (Option (List ℕ))
unfolding draw_text
vm_name_safe size draws = draw_text size [] draws

encode_test : encode_url (0 ∷ 255 ∷ 62 ∷ 251 ∷ []) ≡ b'A' ∷ b'P' ∷ b'8' ∷ b'-' ∷ b'-' ∷ b'w' ∷ []
unfolding encode_url
encode_test = refl
