-- ===== src/Names/Safe.antt =====
-- utils.go: what a random name is made of.
use fleeting_plugin_vcd.Base.{
  ℕ, zero, suc, ◌+◌, ◌*◌, ◌/◌, ◌%◌, ◌≤◌, ◌<◌, ltb, leb, ◌==◌, ◌≡◌, refl, ◌⊎◌, inl, inr, Bool, true,
  false, ◌&&◌, ◌||◌, Option, none, some, List, [], ◌∷◌, length, arith, Bool-cases,
}
use fleeting_plugin_vcd.Names.{
  url_char, encode_url, remove_byte, lower_byte, lower_bytes, usable_text, take, draw_text,
  vm_name_safe,
}

-- A letter or digit of a host name, in lower case.
abbrev pub is_safe : ℕ → Bool
is_safe c = (leb b'a' c && leb c b'z') || (leb b'0' c && leb c b'9')

abbrev pub AreSafe : List ℕ → Type 0
AreSafe [] = Unit
AreSafe (c ∷ cs) = (is_safe c ≡ true) × AreSafe cs

-- Of the URL alphabet, with `-` and `_`.
abbrev is_url_char : ℕ → Bool
is_url_char c = (is_safe c || (leb b'A' c && leb c b'Z')) || (c == b'-' || c == b'_')

abbrev AreUrlChars : List ℕ → Type 0
AreUrlChars [] = Unit
AreUrlChars (c ∷ cs) = (is_url_char c ≡ true) × AreUrlChars cs

is_url_char-url_char : (d : ℕ) → is_url_char (url_char d) ≡ true
unfolding url_char
is_url_char-url_char d = ground arith

encode_url-AreUrlChars : (bytes : List ℕ) → AreUrlChars (encode_url bytes)
unfolding encode_url
encode_url-AreUrlChars [] = tt
encode_url-AreUrlChars (a ∷ []) =
    (is_url_char-url_char (a / 4), (is_url_char-url_char (a % 4 * 16), tt))
encode_url-AreUrlChars (a ∷ b ∷ []) = (
  is_url_char-url_char (a / 4),
  (is_url_char-url_char (a % 4 * 16 + b / 16), (is_url_char-url_char (b % 16 * 4), tt)),
)
encode_url-AreUrlChars (a ∷ b ∷ c ∷ bytes) = (
  is_url_char-url_char (a / 4),
  (
    is_url_char-url_char (a % 4 * 16 + b / 16),
    (
      is_url_char-url_char (b % 16 * 4 + c / 64),
      (is_url_char-url_char (c % 64), encode_url-AreUrlChars bytes),
    ),
  ),
)

lowered-is_safe :
    (c : ℕ)
    → is_url_char c ≡ true
    → (c == b'_') ≡ false
    → (c == b'-') ≡ false
    → is_safe (lower_byte c) ≡ true
unfolding lower_byte
lowered-is_safe c h no_line no_dash = ground arith

-- What is left without the two signs, in lower case, is safe.
AreSafe-cleaned :
    (cs : List ℕ) → AreUrlChars cs → AreSafe (lower_bytes (remove_byte b'-' (remove_byte b'_' cs)))
unfolding lower_bytes remove_byte
AreSafe-cleaned [] h = tt
AreSafe-cleaned (c ∷ cs) h = elim (Bool-cases (c == b'_')) [
  | inl line ↦ rw (line, remove_byte) (AreSafe-cleaned cs h.1)
  | inr no_line ↦ elim (Bool-cases (c == b'-')) [
    | inl dash ↦ rw (no_line, dash, remove_byte) (AreSafe-cleaned cs h.1)
    | inr no_dash ↦
        rw (no_line, no_dash, remove_byte)
          (lowered-is_safe c h.0 no_line no_dash, AreSafe-cleaned cs h.1)
  ]
]

usable_text-AreSafe : (bytes : List ℕ) → AreSafe (usable_text bytes)
unfolding usable_text
usable_text-AreSafe bytes = AreSafe-cleaned (encode_url bytes) (encode_url-AreUrlChars bytes)

take-AreSafe : (n : ℕ) (cs : List ℕ) → AreSafe cs → AreSafe (take n cs)
take-AreSafe zero cs h = tt
take-AreSafe (suc n) [] h = tt
take-AreSafe (suc n) (c ∷ cs) h = (h.0, take-AreSafe n cs h.1)

length-take : (n : ℕ) (cs : List ℕ) → n ≤ length cs → length (take n cs) ≡ n
length-take zero cs h = refl
length-take (suc n) [] h = absurd (omega arith)
length-take (suc n) (c ∷ cs) h = omega (arith, length-take n cs)

-- No draw gives enough characters, and none fails.
abbrev pub AreShort : ℕ → List (Option (List ℕ)) → Type 0
AreShort size [] = Unit
AreShort size (none ∷ draws) = ⊥
AreShort size (some bytes ∷ draws) =
    (ltb (length (usable_text bytes)) size ≡ true) × AreShort size draws

-- A draw fails, and none before it gives enough characters.
abbrev pub FailsFirst : ℕ → List (Option (List ℕ)) → Type 0
FailsFirst size [] = ⊥
FailsFirst size (none ∷ draws) = Unit
FailsFirst size (some bytes ∷ draws) =
    (ltb (length (usable_text bytes)) size ≡ true) × FailsFirst size draws

-- The text is cut from the first draw that gives enough characters, none before it failing.
abbrev pub IsFirst : ℕ → List (Option (List ℕ)) → List ℕ → Type 0
IsFirst size [] text = ⊥
IsFirst size (none ∷ draws) text = ⊥
IsFirst size (some bytes ∷ draws) text =
    ((ltb (length (usable_text bytes)) size ≡ false) × (text ≡ take size (usable_text bytes)))
    ⊎ ((ltb (length (usable_text bytes)) size ≡ true) × IsFirst size draws text)

-- A text of the size, of letters in lower case and digits.
abbrev pub IsName : ℕ → List ℕ → Type 0
IsName size text = (length text ≡ size) × AreSafe text

taken-IsName :
    (size : ℕ) (str : List ℕ)
    → AreSafe str
    → ltb (length str) size ≡ false
    → IsName size (take size str)
taken-IsName size str safe enough =
    (length-take size str (ground (arith, enough)), take-AreSafe size str safe)

draw_text-ends :
    (size : ℕ) (str : List ℕ) (draws : List (Option (List ℕ)))
    → AreSafe str
    → ((draw_text size str draws ≡ none) × (ltb (length str) size ≡ true) × AreShort size draws)
      ⊎ ((draw_text size str draws ≡ some none)
          × (ltb (length str) size ≡ true)
          × FailsFirst size draws)
      ⊎ ((text : List ℕ) × (draw_text size str draws ≡ some (some text))
          × IsName size text
          × (((ltb (length str) size ≡ false) × (text ≡ take size str))
              ⊎ ((ltb (length str) size ≡ true) × IsFirst size draws text)))
unfolding draw_text
draw_text-ends size str [] safe = elim (Bool-cases (ltb (length str) size)) [
  | inl short ↦ rw short (inl (refl, refl, tt))
  | inr enough ↦
      rw enough
        (inr (inr (take size str, refl, taken-IsName size str safe enough, inl (refl, refl))))
]
draw_text-ends size str (none ∷ draws) safe = elim (Bool-cases (ltb (length str) size)) [
  | inl short ↦ rw short (inr (inl (refl, refl, tt)))
  | inr enough ↦
      rw enough
        (inr (inr (take size str, refl, taken-IsName size str safe enough, inl (refl, refl))))
]
draw_text-ends size str (some bytes ∷ draws) safe = elim (Bool-cases (ltb (length str) size)) [
  | inr enough ↦
      rw enough
        (inr (inr (take size str, refl, taken-IsName size str safe enough, inl (refl, refl))))
  | inl short ↦
      rw short (elim (draw_text-ends size (usable_text bytes) draws (usable_text-AreSafe bytes)) [
        | inl (e, less, rest) ↦ inl (e, refl, (less, rest))
        | inr (inl (e, less, rest)) ↦ inr (inl (e, refl, (less, rest)))
        | inr (inr (text, e, good, origin)) ↦ inr (inr (text, e, good, inr (refl, origin)))
      ])
]

-- `GenerateRandomStringVMNameSafe` draws until a draw has enough characters, or until a draw fails,
-- which is its error. What it returns for a size above 0 is cut from the first draw that has enough
-- characters; it has exactly the size, and consists of lower-case letters and digits.
pub vm_name_safe-ends :
    (size : ℕ) (draws : List (Option (List ℕ)))
    → 0 < size
    → ((vm_name_safe size draws ≡ none) × AreShort size draws)
      ⊎ ((vm_name_safe size draws ≡ some none) × FailsFirst size draws)
      ⊎ ((text : List ℕ) × (vm_name_safe size draws ≡ some (some text))
          × IsName size text
          × IsFirst size draws text)
unfolding vm_name_safe
vm_name_safe-ends size draws some_size = elim (draw_text-ends size [] draws tt) [
  | inl (e, _, rest) ↦ inl (e, rest)
  | inr (inl (e, _, rest)) ↦ inr (inl (e, rest))
  | inr (inr (text, e, good, inl (empty, _))) ↦ absurd (ground (arith, some_size, empty))
  | inr (inr (text, e, good, inr (_, origin))) ↦ inr (inr (text, e, good, origin))
]
