-- ===== src/Wallet/Chars.antt =====
-- Texts as lists of code points, and the regular expressions of policy.ts and operation.ts.
use Prim.Native.Char.{code}
use Prim.Native.String.{String}
use ligis.Prelude.{
  ◌≡◌, refl, arith, ℕ, ◌+◌, ◌-◌, ◌*◌, Bool, true, false, not, ◌&&◌, ◌||◌, List, [], ◌∷◌, leb, ◌==◌,
  if◌then◌else◌, length,
}
use mathlib.Core.List.{reverse, map}

abbrev pub Text : Type 0
Text = List ℕ

abbrev pub codes : String → Text
codes String.[] = []
codes (String.◌∷◌ c s) = code c ∷ codes s

-- `===` on texts.
abbrev pub text_eq : Text → Text → Bool
text_eq [] [] = true
text_eq (a ∷ s) (b ∷ t) = a == b && text_eq s t
text_eq _ _ = false

abbrev pub all_chars : (ℕ → Bool) → Text → Bool
all_chars p [] = true
all_chars p (c ∷ s) = p c && all_chars p s

abbrev pub is_digit : ℕ → Bool
is_digit c = leb b'0' c && leb c b'9'

abbrev pub is_upper : ℕ → Bool
is_upper c = leb b'A' c && leb c b'Z'

abbrev pub is_lower : ℕ → Bool
is_lower c = leb b'a' c && leb c b'z'

unfoldable pub is_hex : ℕ → Bool
is_hex c = is_digit c || (leb b'a' c && leb c b'f' || leb b'A' c && leb c b'F')

-- `0x` and so many hexadecimal digits.
is_hex_of : ℕ → Text → Bool
unfolding is_hex
is_hex_of n (z ∷ x ∷ s) = z == b'0' && (x == b'x' && (length s == n && all_chars is_hex s))
is_hex_of n _ = false

-- ADDRESS: /^0x[0-9a-fA-F]{40}$/
unfoldable pub is_address : Text → Bool
unfolding is_hex_of
is_address s = is_hex_of 40 s

-- BYTES32: /^0x[0-9a-fA-F]{64}$/
unfoldable pub is_bytes32 : Text → Bool
unfolding is_hex_of
is_bytes32 s = is_hex_of 64 s

-- UINT256: /^(0|[1-9][0-9]{0,77})$/
unfoldable pub is_uint : Text → Bool
is_uint [] = false
is_uint (c ∷ s) =
    if c == b'0' then length s == 0 else is_digit c && (leb (length s) 77 && all_chars is_digit s)

-- /^\d+$/
unfoldable pub is_numeric : Text → Bool
is_numeric [] = false
is_numeric s = all_chars is_digit s

unfoldable pub to_ℕ_from : ℕ → Text → ℕ
to_ℕ_from n [] = n
to_ℕ_from n (c ∷ s) = to_ℕ_from (n * 10 + (c - b'0')) s

-- `BigInt` of a text of decimal digits.
unfoldable pub to_ℕ : Text → ℕ
unfolding to_ℕ_from
to_ℕ s = to_ℕ_from 0 s

-- `toLowerCase` of ASCII letters, which are all that the expressions above let through; payees and
-- labels, which none of them checks, are taken to be ASCII.
unfoldable pub to_lower : Text → Text
to_lower s = map (λ c. if is_upper c then c + 32 else c) s

-- The white space of `trim` and of `\s`.
unfoldable pub is_space : ℕ → Bool
is_space c =
    (leb 9 c && leb c 13)
    || (c == 32
        || (c == 0xa0
            || (c == 0x1680
                || ((leb 0x2000 c && leb c 0x200a)
                    || (c == 0x2028
                        || (c == 0x2029
                            || (c == 0x202f || (c == 0x205f || (c == 0x3000 || c == 0xfeff)))))))))

unfoldable pub drop_spaces : Text → Text
drop_spaces [] = []
drop_spaces (c ∷ s) = let rest = drop_spaces s in if is_space c then rest else c ∷ s

unfoldable pub trim : Text → Text
unfolding drop_spaces is_space
trim s = reverse (drop_spaces (reverse (drop_spaces s)))

-- HTTPS: /^https:\/\/[^\s]+$/
unfoldable pub is_https : Text → Bool
unfolding is_space
is_https (h ∷ t ∷ t' ∷ p ∷ s ∷ colon ∷ slash ∷ slash' ∷ c ∷ rest) =
    text_eq (h ∷ t ∷ t' ∷ p ∷ s ∷ colon ∷ slash ∷ slash' ∷ []) (codes "https://")
    && all_chars (λ x. not (is_space x)) (c ∷ rest)
is_https _ = false

is_name_char : ℕ → Bool
is_name_char c =
    is_digit c || (is_lower c || (is_upper c || (c == b'.' || (c == b'_' || c == b'-'))))

-- CAPABILITY: /^[a-z0-9][a-z0-9._-]{0,63}$/i
unfoldable pub is_capability : Text → Bool
unfolding is_name_char
is_capability [] = false
is_capability (c ∷ s) =
    (is_digit c || (is_lower c || is_upper c)) && (leb (length s) 63 && all_chars is_name_char s)

pub text_eq_refl : (s : Text) → text_eq s s ≡ true
text_eq_refl [] = refl
text_eq_refl (c ∷ s) = ground (arith, text_eq_refl s)

pub text_eq_sound : (s t : Text) → text_eq s t ≡ true → s ≡ t
text_eq_sound [] [] h = refl
text_eq_sound [] (d ∷ t) h = ground arith
text_eq_sound (c ∷ s) [] h = ground arith
text_eq_sound (c ∷ s) (d ∷ t) h = ground (arith, text_eq_sound s t)
