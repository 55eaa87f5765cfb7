-- ===== src/Text.antt =====
-- Text helpers: the bounded `sanitize_error_text` of job_sanitizer.py, and the tests that the code
-- makes with the patterns `^[a-fA-F0-9]{64}$` and `^[a-fA-F0-9]{32}$`.
use Prim.Native.Char.{Char, code}
use Prim.Native.String.{◌++◌}
use ange_media_gateway.Base.{
  ◌↔◌, ◌≡◌, not, if◌then◌else◌, ◌==◌, nat_eq, [], ◌∷◌, contains, ℕ, zero, suc, ◌≤◌, String, Bool,
  true, false, ◌&&◌, ◌||◌, Option, none, some, arith, leb, refl, ◌≡◌, ◌↔◌,
}
use ange_media_gateway.Store.{Env}

-- `text[:limit]`
pub take_chars : ℕ → String → String
take_chars zero s = String.[]
take_chars (suc n) String.[] = String.[]
take_chars (suc n) (String.◌∷◌ c s) = String.◌∷◌ c (take_chars n s)

abbrev pub count_chars : String → ℕ
count_chars String.[] = 0
count_chars (String.◌∷◌ c s) = suc (count_chars s)

pub count_chars-take_chars : (n : ℕ) (s : String) → count_chars (take_chars n s) ≤ n
unfolding take_chars
count_chars-take_chars zero s = omega arith
count_chars-take_chars (suc n) String.[] = omega arith
count_chars-take_chars (suc n) (String.◌∷◌ c s) = omega (arith, count_chars-take_chars n s)

unfoldable pub sanitize_error_text : Env → Option String → ℕ → Option String
unfolding take_chars
sanitize_error_text env none limit = none
sanitize_error_text env (some value) limit = some (take_chars limit (env.redact value))

unfoldable pub sanitize_json_text : Env → Option String → Option String
sanitize_json_text env none = none
sanitize_json_text env (some value) = some (env.redact_json value)

is_hex_char : Char → Bool
is_hex_char c =
    let n = code c in
    (leb b'a' n && leb n b'f') || (leb b'A' n && leb n b'F') || (leb b'0' n && leb n b'9')

-- The whole text is `n` hexadecimal digits.
unfoldable pub is_hex : ℕ → String → Bool
unfolding is_hex_char
is_hex zero String.[] = true
is_hex (suc n) (String.◌∷◌ c s) = is_hex_char c && is_hex n s
is_hex _ _ = false

-- `bool(text)`
abbrev pub is_empty : String → Bool
is_empty String.[] = true
is_empty (String.◌∷◌ c s) = false

-- `str.isspace` of one character, as `strip` tests it.
is_space : Char → Bool
is_space c =
    let n = code c in
    (leb 9 n && leb n 13)
    || (leb 28 n && leb n 32)
    || contains (133 ∷ 160 ∷ 5760 ∷ []) n
    || (leb 8192 n && leb n 8202)
    || contains (8232 ∷ 8233 ∷ 8239 ∷ 8287 ∷ 12288 ∷ []) n

-- `not text.strip()`
unfoldable pub is_blank : String → Bool
unfolding is_space
is_blank String.[] = true
is_blank (String.◌∷◌ c s) = is_space c && is_blank s

unfoldable pub is_prefix : String → String → Bool
is_prefix String.[] s = true
is_prefix (String.◌∷◌ c p) String.[] = false
is_prefix (String.◌∷◌ c p) (String.◌∷◌ d s) = code c == code d && is_prefix p s

-- `part in text`
unfoldable pub is_within : String → String → Bool
unfolding is_prefix
is_within part String.[] = is_prefix part String.[]
is_within part (String.◌∷◌ c s) = is_prefix part (String.◌∷◌ c s) || is_within part s

-- Python's `+` of texts.
abbrev pub text_append : String → String → String
text_append a b = a ++ b

abbrev pub generated_path : String → String
generated_path filename = "/generated/" ++ filename

last_is_space : Char → String → Bool
unfolding is_space
last_is_space c String.[] = is_space c
last_is_space c (String.◌∷◌ d s) = last_is_space d s

-- `text == text.strip()`
unfoldable pub is_stripped : String → Bool
unfolding last_is_space
is_stripped String.[] = true
is_stripped (String.◌∷◌ c s) = not (is_space c) && not (last_is_space c s)

-- `any(ord(ch) < 32 or ord(ch) == 127 for ch in text)`
unfoldable pub has_control : String → Bool
has_control String.[] = false
has_control (String.◌∷◌ c s) = leb (code c) 31 || code c == 127 || has_control s

-- `.replace("\\", "/").rsplit("/", 1)[-1]`: what follows the last separator of either kind.
basename_from : String → String → String
basename_from name String.[] = name
basename_from name (String.◌∷◌ c s) =
    if code c == 47 || code c == 92 then basename_from s s else basename_from name s

unfoldable pub basename : String → String
unfolding basename_from
basename path = basename_from path path

pub is_empty_iff : (s : String) → (is_empty s ≡ true) ↔ (s ≡ "")
is_empty_iff String.[] = (λ h. refl, λ h. refl)
is_empty_iff (String.◌∷◌ c s) = (λ h. cc, λ h. cc)
