-- ===== src/Injection.antt =====
-- PromptInjectionDetector of src/services/prompt_injection_detector.py. What a pattern finds in a text is
-- an argument, as the patterns are regular expressions.
pub mod Fields
pub mod Found
mod Examples
use sentinai_project.Common.{
  ℕ, Option, none, some, is_none, Bool, true, false, List, [], ◌∷◌, ◌++◌, not, ltb, if◌then◌else◌,
  length, take, map, Text, codes, is_space, is_member, or_else,
}

-- The label of a pattern, and group(0) of its matches.
pub record Pattern : Type 0 where
  pub label : Text
  pub find : Text → List Text

pub record Detection : Type 0 where
  pub label : Text
  pub matched : Text
  pub field : Text

pub record InjectionDetectionResult : Type 0 where
  pub is_injection : Bool
  pub detections : List Detection
  pub flagged_field : Option Text

abbrev detection : Text → Text → Text → Detection
detection label matched field = record { label = label; matched = take 120 matched; field = field }

abbrev with_word : Text → List Text → List Text
with_word [] rest = rest
with_word (c ∷ word) rest = (c ∷ word) ∷ rest

-- The parts of a text between white space, behind `word`, the begun one: text.split().
unfoldable pub split_words : Text → Text → List Text
split_words [] [] = []
split_words (c ∷ word) [] = (c ∷ word) ∷ []
split_words word (c ∷ s) =
    let ends = is_space c in
    let rest = split_words (if ends then [] else word ++ c ∷ []) s in
    if ends then with_word word rest else rest

unfoldable pub match_detections : Text → Text → List Text → List Detection
match_detections field label [] = []
match_detections field label (m ∷ ms) = detection label m field ∷ match_detections field label ms

unfoldable pub pattern_detections : List Pattern → Text → Text → List Detection
unfolding match_detections
pattern_detections [] text field = []
pattern_detections (p ∷ ps) text field =
    match_detections field p.label (p.find text) ++ pattern_detections ps text field

abbrev pub max_token_length : ℕ
max_token_length = 200

unfoldable pub token_detections : Text → List Text → List Detection
token_detections field [] = []
token_detections field (token ∷ tokens) =
    let rest = token_detections field tokens in
    if ltb max_token_length (length token)
    then detection (codes "long-token-obfuscation") token field ∷ rest
    else rest

abbrev pub is_nonempty {ℓ} : {A : Type ℓ} → List A → Bool
is_nonempty [] = false
is_nonempty (_ ∷ _) = true

unfoldable pub scan : List Pattern → Text → Text → InjectionDetectionResult
unfolding pattern_detections token_detections split_words
scan patterns text field =
    let detections =
      pattern_detections patterns text field ++ token_detections field (split_words [] text) in
    record {
      is_injection = is_nonempty detections;
      detections = detections;
      flagged_field = if is_nonempty detections then some field else none;
    }

abbrev pub first_of : Option Text → Text → Option Text
first_of none field = some field
first_of (some f) field = some f

-- The loop of scan_fields, with the fields in their order.
unfoldable pub scan_loop :
    List Pattern → List (Text × Text) → List Detection → Option Text → List Detection × Option Text
scan_loop patterns [] detections flagged = (detections, flagged)
scan_loop patterns ((field, []) ∷ fields) detections flagged =
    scan_loop patterns fields detections flagged
scan_loop patterns ((field, c ∷ text) ∷ fields) detections flagged =
    let r = scan patterns (c ∷ text) field in
    let next = if r.is_injection then detections ++ r.detections else detections in
    let first = if r.is_injection then first_of flagged field else flagged in
    scan_loop patterns fields next first

unfoldable pub scan_fields : List Pattern → List (Text × Text) → InjectionDetectionResult
unfolding scan_loop
scan_fields patterns fields =
    let (detections, flagged) = scan_loop patterns fields [] none in
    record {
      is_injection = is_nonempty detections;
      detections = detections;
      flagged_field = flagged;
    }

abbrev pub labels : InjectionDetectionResult → List Text
labels r = map (λ d. d.label) r.detections
