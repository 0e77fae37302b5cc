-- ===== src/Text.antt =====
-- What the gate uses of Rust's `str`: decimal printing, blank tests, ASCII upper case, suffixes.
pub mod Decimal
pub mod Suffix
use Prim.Native.Char.{Char, code}
use Prim.Native.String.{[], ◌∷◌, char_at}
use esclusa.Prelude.{
  ℕ, zero, suc, ◌+◌, ◌-◌, ◌/◌, ◌%◌, String, Bool, true, false, ◌&&◌, ◌||◌, ◌≡◌, refl, ◌==◌, ltb,
  leb, nat_eq, if◌then◌else◌,
}
use esclusa.Prelude.Int.{ℤ, pos, negsuc}

unfoldable pub digit : ℕ → Char
digit d = char_at "0123456789" d

-- The digits of `n` in front of `out`; a round for each digit, so `suc n` rounds are enough.
unfoldable pub emit : ℕ → ℕ → String → String
emit zero n out = out
emit (suc fuel) n out =
    let rest = emit fuel (n / 10) (digit (n % 10) ∷ out) in if ltb n 10 then digit n ∷ out else rest

-- `to_string` of an unsigned integer.
unfoldable pub show : ℕ → String
unfolding emit digit
show n = emit (suc n) n []

-- `to_string` of an `i64`.
unfoldable pub show_ℤ : ℤ → String
unfolding show
show_ℤ (pos n) = show n
show_ℤ (negsuc n) = "-" ∷ show (suc n)

-- The bytes of a character in UTF-8.
abbrev pub utf8_width : Char → ℕ
utf8_width c =
    if ltb (code c) 0x80
    then 1
    else if ltb (code c) 0x800
    then 2
    else if ltb (code c) 0x10000
    then 3
    else 4

-- `str::len`, which counts bytes.
unfoldable pub byte_len : String → ℕ
byte_len [] = 0
byte_len (c ∷ s) = utf8_width c + byte_len s

-- `char::is_whitespace`: the code points with the Unicode property White_Space.
unfoldable pub is_whitespace : ℕ → Bool
is_whitespace c =
    (leb 9 c && leb c 13)
    || nat_eq c 0x20
    || nat_eq c 0x85
    || nat_eq c 0xa0
    || nat_eq c 0x1680
    || (leb 0x2000 c && leb c 0x200a)
    || nat_eq c 0x2028
    || nat_eq c 0x2029
    || nat_eq c 0x202f
    || nat_eq c 0x205f
    || nat_eq c 0x3000

-- `trim().is_empty()`: nothing but white space.
unfoldable pub is_blank : String → Bool
unfolding is_whitespace
is_blank [] = true
is_blank (c ∷ s) = is_whitespace (code c) && is_blank s

unfoldable pub upper_char : Char → Char
upper_char c =
    if leb 97 (code c) && leb (code c) 122
    then char_at "ABCDEFGHIJKLMNOPQRSTUVWXYZ" (code c - 97)
    else c

unfoldable pub to_ascii_uppercase : String → String
unfolding upper_char
to_ascii_uppercase [] = []
to_ascii_uppercase (c ∷ s) = upper_char c ∷ to_ascii_uppercase s

-- `ends_with`: the text, or a text behind one of its characters, is `t`.
unfoldable pub ends_with : String → String → Bool
ends_with [] t = [] == t
ends_with (c ∷ s) t = (c ∷ s) == t || ends_with s t

show_1024 : show 1024 ≡ "1024"
unfolding show
show_1024 = refl

show_ℤ_neg : show_ℤ (negsuc 41) ≡ "-42"
unfolding show_ℤ
show_ℤ_neg = refl

upper_mixed : to_ascii_uppercase "api_Key9" ≡ "API_KEY9"
unfolding to_ascii_uppercase
upper_mixed = refl

ends_with_key : ends_with "MASTER_KEY" "_KEY" ≡ true
unfolding ends_with
ends_with_key = refl

byte_len_mixed : byte_len "añ€" ≡ 6
unfolding byte_len
byte_len_mixed = refl
