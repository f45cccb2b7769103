-- ===== src/Sanitizer.antt =====
-- SecretSanitizer of src/services/secret_sanitizer.py. The module re is the argument `find`, which
-- gives the spans of a pattern's matches in a text from left to right, and `tokens`, those of the
-- entropy pass. Hashing raises on a text that has no encoding: then `hash` gives none. The entropy is
-- a sum of logarithms in floats, and its comparison with the threshold is the argument `is_random`.
pub mod Placed
pub mod Labelled
pub mod Rendered
mod Examples
use sentinai_project.Common.{
  ℕ, ◌+◌, ◌-◌, ◌*◌, Option, none, some, Bool, true, false, List, [], ◌∷◌, ◌++◌, ◌&&◌, ◌||◌, not,
  ltb, leb, ◌==◌, if◌then◌else◌, and_then, length, take, drop, any_of, count_where, map, Text,
  codes, in_range,
}

-- start and end of a match.
pub record Span : Type 0 where
  pub start : ℕ
  pub stop : ℕ

pub record SecretPattern : Type 0 where
  pub name : Text
  pub label : Text

pub record RedactionRecord : Type 0 where
  pub pattern_name : Text
  pub span : Span
  pub value_hash : Text

pub record SanitizeResult : Type 0 where
  pub text : Text
  pub redactions : List RedactionRecord

-- An element of `hits`: the record has its span.
pub record Hit : Type 0 where
  pub replacement : Text
  pub entry : RedactionRecord

-- `seen_spans` and `hits`.
pub record Found : Type 0 where
  pub seen : List Span
  pub hits : List Hit

-- What the sanitizer takes from elsewhere, and its two settings.
pub record Settings : Type 0 where
  pub patterns : List SecretPattern
  pub entropy_detection : Bool
  pub find : SecretPattern → Text → List Span
  pub tokens : Text → List Span
  pub is_random : Text → Bool
  pub hash : Text → Option Text

pub redact_label : Text → Text
redact_label label = codes "[REDACTED:" ++ (label ++ codes "]")

-- text[start:end]
abbrev pub slice : ℕ → ℕ → Text → Text
slice start stop text = drop start (take stop text)

-- _overlaps
unfoldable pub overlaps : Span → List Span → Bool
overlaps m seen = any_of (λ s. ltb s.start m.stop && ltb m.start s.stop) seen

abbrev is_token_char : ℕ → Bool
is_token_char c =
    in_range b'a' b'z' c
    || in_range b'A' b'Z' c
    || in_range b'0' b'9' c
    || c == b'+'
    || c == b'/'
    || c == b'='
    || c == b'_'
    || c == b'-'

-- _looks_like_secret: a length of 20 to 200, 85 of 100 characters of the token kind, and the entropy.
pub looks_like_secret : (Text → Bool) → Text → Bool
looks_like_secret is_random token =
    let n = length token in
    if ltb n 20 || ltb 200 n
    then false
    else if ltb (count_where is_token_char token * 100) (85 * n)
    then false
    else is_random token

-- The two appends for a match.
unfoldable pub take_match : Text → Text → Span → Text → Found → Found
take_match name label m value_hash found = record {
  seen = found.seen ++ m ∷ [];
  hits =
      found.hits
      ++ record {
        replacement = redact_label label;
        entry = record { pattern_name = name; span = m; value_hash = value_hash };
      }
        ∷ [];
}

-- A hit, if the span overlaps no earlier one; hashing may raise.
abbrev map_hash : (Text → Found) → Option Text → Option Found
map_hash f none = none
map_hash f (some h) = some (f h)

pub add_match : Settings → Text → Text → Text → Span → Found → Option Found
unfolding take_match
add_match k text name label m found =
    if overlaps m found.seen
    then some found
    else map_hash (λ h. take_match name label m h found) (k.hash (slice m.start m.stop text))

pub add_matches : Settings → Text → Text → Text → List Span → Found → Option Found
add_matches k text name label [] found = some found
add_matches k text name label (m ∷ ms) found =
    and_then (add_match k text name label m found) (λ next. add_matches k text name label ms next)

-- Pass 1.
unfoldable pub add_patterns : Settings → Text → List SecretPattern → Found → Option Found
unfolding add_matches
add_patterns k text [] found = some found
add_patterns k text (p ∷ ps) found =
    and_then (add_matches k text p.name p.label (k.find p text) found)
      (λ next. add_patterns k text ps next)

-- Pass 2.
pub add_token : Settings → Text → Span → Found → Option Found
unfolding add_match
add_token k text m found =
    if looks_like_secret k.is_random (slice m.start m.stop text)
    then add_match k text (codes "entropy") (codes "high-entropy-secret") m found
    else some found

pub add_tokens : Settings → Text → List Span → Found → Option Found
unfolding add_token
add_tokens k text [] found = some found
add_tokens k text (m ∷ ms) found =
    and_then (add_token k text m found) (λ next. add_tokens k text ms next)

abbrev pub nothing_found : Found
nothing_found = record { seen = []; hits = [] }

unfoldable pub find_hits : Settings → Text → Option Found
unfolding add_patterns add_tokens
find_hits k text =
    and_then (add_patterns k text k.patterns nothing_found)
      (λ found. if k.entropy_detection then add_tokens k text (k.tokens text) found else some found)

-- hits.sort(key=start, reverse=True), which keeps the order of equal keys.
pub insert : Hit → List Hit → List Hit
insert h [] = h ∷ []
insert h (x ∷ xs) =
    let rest = insert h xs in
    if leb x.entry.span.start h.entry.span.start then h ∷ x ∷ xs else x ∷ rest

unfoldable pub sort_reversed : List Hit → List Hit
sort_reversed [] = []
sort_reversed (h ∷ hs) = insert h (sort_reversed hs)

-- cleaned[:start] + replacement + cleaned[end:]
pub splice : Hit → Text → Text
splice h cleaned =
    take h.entry.span.start cleaned ++ (h.replacement ++ drop h.entry.span.stop cleaned)

unfoldable pub splice_all : List Hit → Text → Text
splice_all [] cleaned = cleaned
splice_all (h ∷ hs) cleaned = splice_all hs (splice h cleaned)

-- The records from left to right.
unfoldable pub entries : List Hit → List RedactionRecord
entries [] = []
entries (h ∷ hs) = entries hs ++ h.entry ∷ []

unfoldable pub cleaned_text : Text → List Hit → SanitizeResult
unfolding sort_reversed splice_all splice entries
cleaned_text text hits =
    let sorted = sort_reversed hits in
    record { text = splice_all sorted text; redactions = entries sorted }

unfoldable pub result_of : Text → Option Found → SanitizeResult
result_of text none = record { text = codes "[REDACTED: sanitizer error]"; redactions = [] }
result_of text (some found) = cleaned_text text found.hits

-- sanitize: _sanitize, and the placeholder for whatever it raises. Without hits no substitution is
-- made, which gives the text as it is.
unfoldable pub sanitize : Settings → Text → SanitizeResult
unfolding result_of find_hits
sanitize k [] = record { text = []; redactions = [] }
sanitize k (c ∷ text) = result_of (c ∷ text) (find_hits k (c ∷ text))
