-- ===== src/Injection/Examples.antt =====
-- Two fields, of which the second has an injection.
use sentinai_project.Common.{
  is_some, ◌≡◌, refl, List, [], ◌∷◌, Text, codes, if◌then◌else◌, contains,
}
use sentinai_project.Injection.Fields.{all_detections, first_flagged, scan_fields_lem}
use sentinai_project.Injection.{
  Pattern, scan, scan_fields, scan_loop, split_words, match_detections, pattern_detections,
  token_detections, labels,
}

abbrev patterns : List Pattern
patterns =
    record {
      label = codes "jailbreak";
      find = λ text. if contains (codes "jailbreak") text then codes "jailbreak" ∷ [] else [];
    }
    ∷ []

abbrev fields : List (Text × Text)
fields = (codes "trigger_line", codes "boom") ∷ (codes "stacktrace", codes "a jailbreak") ∷ []

words : split_words [] (codes " a  b\nc ") ≡ codes "a" ∷ codes "b" ∷ codes "c" ∷ []
unfolding split_words
words = refl

reported : labels (scan_fields patterns fields) ≡ codes "jailbreak" ∷ []
unfolding scan_fields scan_loop scan pattern_detections match_detections token_detections
    split_words
reported = refl

scan_fields_lem_example :
    ((scan_fields patterns fields).detections ≡ all_detections patterns fields)
    × ((scan_fields patterns fields).flagged_field ≡ first_flagged patterns fields)
    × ((scan_fields patterns fields).is_injection ≡ is_some (first_flagged patterns fields))
scan_fields_lem_example = scan_fields_lem patterns fields
