-- ===== src/Common/Words.antt =====
-- The other methods of str that the code calls. Cases and `\w` are those of ASCII: a letter outside
-- it is its own lower and upper case, and no word character.
use Prim.Native.Nat.{ℕ, zero, suc, ◌+◌, ◌-◌}
use mathlib.Core.Bool.{Bool, true, false, ◌||◌, ◌&&◌, not}
use mathlib.Core.List.{List, [], ◌∷◌, ◌++◌, map}
use mathlib.Core.Path.{◌≡◌, refl}
use native.Mathlib.Omega.{arith}
use sentinai_project.Common.Tests.{if◌then◌else◌, ◌==◌, leb}
use sentinai_project.Common.Lists.{length, any_of}
use sentinai_project.Common.Strings.{Text, starts_with}

abbrev pub text_eq : Text → Text → Bool
text_eq [] [] = true
text_eq [] (d ∷ s) = false
text_eq (c ∷ p) [] = false
text_eq (c ∷ p) (d ∷ s) = c == d && text_eq p s

pub text_eq_sound : (s t : Text) → text_eq s t ≡ true → s ≡ t
text_eq_sound [] [] h = refl
text_eq_sound [] (d ∷ t) h = cc
text_eq_sound (c ∷ s) [] h = cc
text_eq_sound (c ∷ s) (d ∷ t) h =
    let same : c ≡ d = ground arith in
    let rest = text_eq_sound s t (ground arith) in λ i. same i ∷ rest i

pub text_eq_refl : (x : Text) → text_eq x x ≡ true
text_eq_refl [] = refl
text_eq_refl (c ∷ x) = ground (arith, text_eq_refl x)

-- `s.endswith(p)`, with the suffix first.
abbrev pub ends_with : Text → Text → Bool
ends_with p [] = text_eq p []
ends_with p (d ∷ s) = text_eq p (d ∷ s) || ends_with p s

-- `s in texts`.
abbrev pub is_member : Text → List Text → Bool
is_member s texts = any_of (text_eq s) texts

abbrev pub in_range : ℕ → ℕ → ℕ → Bool
in_range lo hi c = leb lo c && leb c hi

abbrev lower_char : ℕ → ℕ
lower_char c = if in_range b'A' b'Z' c then c + 32 else c

abbrev upper_char : ℕ → ℕ
upper_char c = if in_range b'a' b'z' c then c - 32 else c

abbrev pub lower : Text → Text
lower s = map lower_char s

abbrev pub upper : Text → Text
upper s = map upper_char s

abbrev pub is_word_char : ℕ → Bool
is_word_char c = in_range b'a' b'z' c || in_range b'A' b'Z' c || in_range b'0' b'9' c || c == b'_'

-- The replacement behind the first `skip` characters, which belong to an occurrence.
abbrev replace_after : ℕ → Text → Text → Text → Text
replace_after skip old new [] = []
replace_after (suc skip) old new (c ∷ s) = replace_after skip old new s
replace_after zero old new (c ∷ s) =
    let found = starts_with old (c ∷ s) in
    let rest = replace_after (if found then length old - 1 else 0) old new s in
    if found then new ++ rest else c ∷ rest

-- `s.replace(old, new)`, for an `old` that is not empty.
abbrev pub replace : Text → Text → Text → Text
replace old new s = replace_after 0 old new s

-- `sep.join(texts)`
abbrev pub join : Text → List Text → Text
join sep [] = []
join sep (s ∷ []) = s
join sep (s ∷ t ∷ texts) = s ++ (sep ++ join sep (t ∷ texts))

-- str.isspace of one character.
abbrev pub is_space : ℕ → Bool
is_space c =
    in_range 9 13 c
    || in_range 28 32 c
    || c == 0x85
    || c == 0xa0
    || c == 0x1680
    || in_range 0x2000 0x200a c
    || in_range 0x2028 0x2029 c
    || c == 0x202f
    || c == 0x205f
    || c == 0x3000

-- `not s.strip()`
abbrev pub is_blank : Text → Bool
is_blank [] = true
is_blank (c ∷ s) = is_space c && is_blank s

-- The characters at which str.splitlines ends a line, but `\r`.
abbrev pub is_break : ℕ → Bool
is_break c = in_range 10 12 c || in_range 28 30 c || c == 0x85 || c == 0x2028 || c == 0x2029

-- The lines of a text behind `line`, the begun one. `\r\n` ends one line.
abbrev lines_from : Bool → Text → Text → List Text
lines_from after_cr [] [] = []
lines_from after_cr (c ∷ line) [] = (c ∷ line) ∷ []
lines_from after_cr line (c ∷ s) =
    let is_second = after_cr && c == 10 in
    let ends = not is_second && (c == 13 || is_break c) in
    let rest = lines_from (c == 13) (if ends || is_second then [] else line ++ c ∷ []) s in
    if ends then line ∷ rest else rest

-- `s.splitlines()`
abbrev pub split_lines : Text → List Text
split_lines s = lines_from false [] s
