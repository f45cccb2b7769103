-- ===== src/Sanitizer/Rendered.antt =====
-- The substitution from right to left, against the text's pieces in their order.
use sentinai_project.Common.{
  ℕ, ◌≤◌, ◌<◌, ◌≡◌, List, [], ◌∷◌, ◌++◌, map, length, take, All, Text, codes,
}
use sentinai_project.Sanitizer.{Hit, Settings, SanitizeResult, slice, entries}
use sentinai_project.Sanitizer.Labelled.{IsLabelled}
use sentinai_project.Sanitizer.Placed.{IsWithin, span_of, AllMeet}

-- The text up to `q` with the hits' spans replaced, for hits from right to left: what stands left of a
-- hit, its label, and what stands between it and `q`.
unfoldable pub render : List Hit → ℕ → Text → Text
render [] q text = take q text
render (h ∷ hs) q text =
    render hs h.entry.span.start text ++ (h.replacement ++ slice h.entry.span.stop q text)

-- Hits from right to left, the first left of `q`, that lie apart.
abbrev pub IsDescending : ℕ → List Hit → Type 0
IsDescending q [] = Unit
IsDescending q (h ∷ hs) =
    (h.entry.span.start < h.entry.span.stop)
    × (h.entry.span.stop ≤ q)
    × IsDescending h.entry.span.start hs

-- The hits of a placed state.
abbrev AreWithin : ℕ → List Hit → Type 0
AreWithin n hs = All (λ h. IsWithin n (span_of h)) hs

-- A result is the text with the spans of some hits replaced by their labels: the hits lie apart and
-- within the text, each has its record and the label of what found it, and each match of a pattern
-- overlaps one of them.
pub record IsRedaction (k : Settings) (text : Text) (r : SanitizeResult) : Type 0 where
  pub hits : List Hit
  pub descending : IsDescending (length text) hits
  pub rendered : r.text ≡ render hits (length text) text
  pub recorded : r.redactions ≡ entries hits
  pub labelled : All (IsLabelled k text) hits
  pub met : AllMeet k text (map span_of hits)

abbrev pub sanitizer_error : SanitizeResult
sanitizer_error = record { text = codes "[REDACTED: sanitizer error]"; redactions = [] }
