-- ===== src/Sources/Keys.antt =====
-- The keys that are made are well formed, and the names that the pattern lets through.
use sentinai_project.Common.{
  ℕ, zero, suc, ◌+◌, ◌-◌, ◌≤◌, ◌≡◌, refl, sym, ap, ◌∙◌, arith, some, Bool, true, [], ◌∷◌, ◌++◌,
  length, take, drop, append-nil, Text, codes, &&-true, lt→ltb,
}
use sentinai_project.Sources.{
  all_of, is_hex, is_secret_char, begins_with, is_key, prefix_of, generate_key, is_name_char,
  is_first_char, name_end, is_name,
}

take-past : (n : ℕ) (xs ys : Text) → n ≡ length xs → take n (xs ++ ys) ≡ xs
take-past zero [] ys h = refl
take-past zero (x ∷ xs) ys h = absurd (omega (arith, h))
take-past (suc n) [] ys h = absurd (omega (arith, h))
take-past (suc n) (x ∷ xs) ys h = ap (λ zs. x ∷ zs) (take-past n xs ys (omega (arith, h)))

drop-past : (n k : ℕ) (xs ys : Text) → n ≡ length xs + k → drop n (xs ++ ys) ≡ drop k ys
drop-past n k [] ys h = ap (λ m. drop m ys) (omega (arith, h))
drop-past zero k (x ∷ xs) ys h = absurd (omega (arith, h))
drop-past (suc n) k (x ∷ xs) ys h = drop-past n k xs ys (omega (arith, h))

-- A random part has its length and its class of characters.
pub record IsPart (p : ℕ → Bool) (n : ℕ) (s : Text) : Type 0 where
  pub long : length s ≡ n
  pub clean : all_of p s ≡ true

begins_with-part :
    (p : ℕ → Bool) (n : ℕ) (s rest : Text) → IsPart p n s → begins_with p n (s ++ rest) ≡ true
begins_with-part p n s rest h =
    rw (take-past n s rest (sym h.long), h.clean) (ground (arith, h.long))

is_key-parts :
    (hex secret : Text)
    → IsPart is_hex 8 hex
    → IsPart is_secret_char 43 secret
    → is_key (codes "snl_" ++ (hex ++ b'_' ∷ secret)) ≡ true
unfolding is_key
is_key-parts hex secret h s =
    let rest = b'_' ∷ secret in
    let all_read : drop 43 secret ≡ [] =
      ap (drop 43) (sym (append-nil secret)) ∙ drop-past 43 0 secret [] (omega (arith, s.long)) in
    let whole : begins_with is_secret_char 43 secret ≡ true =
      ap (begins_with is_secret_char 43) (sym (append-nil secret))
      ∙ begins_with-part is_secret_char 43 secret [] s in
    rw
      (
        begins_with-part is_hex 8 hex rest h,
        drop-past 8 0 hex rest (omega (arith, h.long)),
        drop-past 9 1 hex rest (omega (arith, h.long)),
        drop-past 52 44 hex rest (omega (arith, h.long)),
        whole,
        all_read,
      )
      refl

-- If the random parts have 8 hexadecimal digits and 43 characters of the URL-safe alphabet, the
-- key that is made of them has the shape of a key, and its prefix is the one that is stored.
pub prefix_of-generate_key :
    (hash_key : Text → Text) (hex secret : Text)
    → IsPart is_hex 8 hex
    → IsPart is_secret_char 43 secret
    → let (key, prefix, key_hash) = generate_key hash_key hex secret in
      prefix_of (some key) ≡ some prefix
unfolding generate_key prefix_of
prefix_of-generate_key hash_key hex secret h s =
    rw (is_key-parts hex secret h s, take-past 8 hex (b'_' ∷ secret) (sym h.long)) refl

name_end-line_feed :
    (n : ℕ) (s : Text)
    → length s ≤ n
    → all_of is_name_char s ≡ true
    → name_end n (s ++ 10 ∷ []) ≡ true
unfolding name_end
name_end-line_feed n [] h a = ground arith
name_end-line_feed n (c ∷ s) h a =
    let (first, others) = &&-true (is_name_char c) (all_of is_name_char s) a in
    rw
      (lt→ltb 0 n (omega (arith, h)), first, name_end-line_feed (n - 1) s (omega (arith, h)) others)
      refl

-- A name of allowed characters, of which at most 31 stand behind the first, is accepted with a
-- line feed at its end.
pub is_name-line_feed :
    (c : ℕ) (s : Text)
    → length s ≤ 31
    → is_first_char c ≡ true
    → all_of is_name_char s ≡ true
    → is_name (c ∷ (s ++ 10 ∷ [])) ≡ true
unfolding is_name
is_name-line_feed c s h f a = ground (arith, f, name_end-line_feed 31 s h a)
