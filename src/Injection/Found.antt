-- ===== src/Injection/Found.antt =====
-- That the scanner overlooks no match of a pattern and no long token, in whichever field.
use sentinai_project.Common.{
  ℕ, ◌<◌, ◌≡◌, refl, ap, ◌∙◌, subst, arith, inl, inr, true, List, [], ◌∷◌, ◌++◌, ltb, length,
  Bool-cases, Text, OneOf,
}
use sentinai_project.Injection.{
  Pattern, Detection, is_nonempty, split_words, match_detections, pattern_detections,
  token_detections, scan, scan_fields,
}
use sentinai_project.Injection.Fields.{all_detections, scan_fields_lem}

-- One of the patterns matches, or a part between white space has more than 200 characters.
pub data IsSuspicious (patterns : List Pattern) (text : Text) : Type 0 where
  of_pattern :
      (p : Pattern) (m : Text)
      → OneOf p patterns
      → OneOf m (p.find text)
      → IsSuspicious patterns text
  of_token :
      (token : Text)
      → OneOf token (split_words [] text)
      → 200 < length token
      → IsSuspicious patterns text

nonempty-left : (ds es : List Detection) → is_nonempty ds ≡ true → is_nonempty (ds ++ es) ≡ true
nonempty-left [] es h = cc
nonempty-left (d ∷ ds) es h = refl

nonempty-right : (ds es : List Detection) → is_nonempty es ≡ true → is_nonempty (ds ++ es) ≡ true
nonempty-right [] es h = h
nonempty-right (d ∷ ds) es h = refl

match-found :
    (field label : Text) (ms : List Text) (m : Text)
    → OneOf m ms
    → is_nonempty (match_detections field label ms) ≡ true
unfolding match_detections
match-found field label [] m h = absurd h
match-found field label (x ∷ ms) m h = refl

pattern-found :
    (ps : List Pattern) (text field : Text) (p : Pattern) (m : Text)
    → OneOf p ps
    → OneOf m (p.find text)
    → is_nonempty (pattern_detections ps text field) ≡ true
unfolding pattern_detections
pattern-found [] text field p m o h = absurd o
pattern-found (q ∷ ps) text field p m (inl e) h =
    nonempty-left _ (pattern_detections ps text field)
      (match-found field q.label (q.find text) m (subst (λ x. OneOf m (x.find text)) e h))
pattern-found (q ∷ ps) text field p m (inr o) h =
    nonempty-right (match_detections field q.label (q.find text)) _
      (pattern-found ps text field p m o h)

token-found :
    (field : Text) (tokens : List Text) (token : Text)
    → OneOf token tokens
    → 200 < length token
    → is_nonempty (token_detections field tokens) ≡ true
unfolding token_detections
token-found field [] token o h = absurd o
token-found field (t ∷ tokens) token (inl e) h =
    let long : ltb 200 (length t) ≡ true = ground (arith, subst (λ x. 200 < length x) e h) in
    rw long refl
token-found field (t ∷ tokens) token (inr o) h = elim (Bool-cases (ltb 200 (length t))) [
  | inl e ↦ rw e refl
  | inr e ↦ rw e (token-found field tokens token o h)
]

module _ (patterns : List Pattern) where
  scan-found :
      (text field : Text)
      → IsSuspicious patterns text
      → is_nonempty (scan patterns text field).detections ≡ true
  unfolding scan
  scan-found text field (of_pattern p m o h) =
      nonempty-left _ (token_detections field (split_words [] text))
        (pattern-found patterns text field p m o h)
  scan-found text field (of_token token o h) =
      nonempty-right (pattern_detections patterns text field) _
        (token-found field (split_words [] text) token o h)

  all-found :
      (fields : List (Text × Text)) (field : Text) (c : ℕ) (text : Text)
      → OneOf (field, c ∷ text) fields
      → IsSuspicious patterns (c ∷ text)
      → is_nonempty (all_detections patterns fields) ≡ true
  unfolding all_detections
  all-found [] field c text o h = absurd o
  all-found (x ∷ fields) field c text (inl e) h =
      subst (λ f. is_nonempty (all_detections patterns (f ∷ fields)) ≡ true) e
        (nonempty-left _ (all_detections patterns fields) (scan-found (c ∷ text) field h))
  all-found ((other, []) ∷ fields) field c text (inr o) h = all-found fields field c text o h
  all-found ((other, d ∷ t) ∷ fields) field c text (inr o) h =
      nonempty-right (scan patterns (d ∷ t) other).detections _ (all-found fields field c text o h)

  -- A field that is not empty and suspicious, wherever it stands, makes an injection.
  pub scan_fields-found :
      (fields : List (Text × Text)) (field : Text) (c : ℕ) (text : Text)
      → OneOf (field, c ∷ text) fields
      → IsSuspicious patterns (c ∷ text)
      → (scan_fields patterns fields).is_injection ≡ true
  unfolding scan_fields
  scan_fields-found fields field c text o h =
      ap is_nonempty (scan_fields_lem patterns fields).0 ∙ all-found fields field c text o h
