-- ===== src/Text.antt =====
-- `strings.ToLower` and `strings.Contains` of Go's standard library, on ASCII text.
use fleeting_plugin_vcd.Base.{◌-◌, ◌≡◌, refl, leb, if◌then◌else◌, String, Bool, ◌&&◌}
use Prim.Native.Char.{Char, code}
use Prim.Native.String.{char_at, find, len}

-- `strings.Contains`
abbrev pub contains_text : String → String → Bool
contains_text s t = leb (find s t) (len s)

unfoldable pub lower_char : Char → Char
lower_char c =
    if leb b'A' (code c) && leb (code c) b'Z'
    then char_at "abcdefghijklmnopqrstuvwxyz" (code c - b'A')
    else c

-- `strings.ToLower`
unfoldable pub to_lower : String → String
unfolding lower_char
to_lower String.[] = ""
to_lower (String.◌∷◌ c s) = String.◌∷◌ (lower_char c) (to_lower s)

lower_test : to_lower "Windows11_64Guest, ÄZ" ≡ "windows11_64guest, Äz"
unfolding to_lower
lower_test = refl
