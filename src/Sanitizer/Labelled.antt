-- ===== src/Sanitizer/Labelled.antt =====
-- What is put in the place of a secret.
use sentinai_project.Common.{
  ◌≡◌, refl, subst, inl, inr, some, true, List, [], ◌∷◌, ◌++◌, Bool-cases, Option-cases,
  and_then-some, All, All-append, OneOf, Text, codes,
}
use sentinai_project.Sanitizer.{
  Span, SecretPattern, Hit, Found, Settings, slice, overlaps, looks_like_secret, redact_label,
  take_match, add_match, add_matches, add_patterns, add_token, nothing_found, add_tokens, find_hits,
}

-- The replacement is the label in brackets, the record has the name and the hash of the value that
-- is replaced, and this is a match of one of the patterns, or a token that looks like a secret.
pub data IsLabelled (k : Settings) (text : Text) (h : Hit) : Type 0 where
  of_pattern :
      (p : SecretPattern)
      → OneOf p k.patterns
      → OneOf h.entry.span (k.find p text)
      → h.entry.pattern_name ≡ p.name
      → h.replacement ≡ codes "[REDACTED:" ++ (p.label ++ codes "]")
      → k.hash (slice h.entry.span.start h.entry.span.stop text) ≡ some h.entry.value_hash
      → IsLabelled k text h
  of_entropy :
      k.entropy_detection ≡ true
      → OneOf h.entry.span (k.tokens text)
      → looks_like_secret k.is_random (slice h.entry.span.start h.entry.span.stop text) ≡ true
      → h.entry.pattern_name ≡ codes "entropy"
      → h.replacement ≡ codes "[REDACTED:high-entropy-secret]"
      → k.hash (slice h.entry.span.start h.entry.span.stop text) ≡ some h.entry.value_hash
      → IsLabelled k text h

some_eq {ℓ} : {A : Type ℓ} {a b : A} → some a ≡ some b → a ≡ b
some_eq h = cc

module _ (k : Settings) (text : Text) where
  abbrev AllLabelled : Found → Type 0
  AllLabelled found = All (IsLabelled k text) found.hits

  add_match-AllLabelled :
      (name label : Text) (m : Span) (found : Found) {next : Found}
      → ((v : Text)
          → k.hash (slice m.start m.stop text) ≡ some v
          → IsLabelled k text (record {
            replacement = redact_label label;
            entry = record { pattern_name = name; span = m; value_hash = v };
          }))
      → AllLabelled found
      → add_match k text name label m found ≡ some next
      → AllLabelled next
  unfolding add_match take_match
  add_match-AllLabelled name label m found {next} new a h =
      elim (Bool-cases (overlaps m found.seen)) [
        | inl e ↦ subst AllLabelled (some_eq (rw e at h)) a
        | inr e ↦ elim (Option-cases (k.hash (slice m.start m.stop text))) [
          | inl g ↦ cc (rw (e, g) at h)
          | inr (v, g) ↦
              let same : take_match name label m v found ≡ next = some_eq (rw (e, g) at h) in
              subst AllLabelled same (All-append (IsLabelled k text) found.hits _ a (new v g, tt))
        ]
      ]

  add_matches-AllLabelled :
      (p : SecretPattern) (ms : List Span) (found : Found) {next : Found}
      → OneOf p k.patterns
      → ((m : Span) → OneOf m ms → OneOf m (k.find p text))
      → AllLabelled found
      → add_matches k text p.name p.label ms found ≡ some next
      → AllLabelled next
  unfolding add_matches redact_label
  add_matches-AllLabelled p [] found {next} o f a h = subst AllLabelled (some_eq h) a
  add_matches-AllLabelled p (m ∷ ms) found {next} o f a h =
      let (mid, e, g) = and_then-some (add_match k text p.name p.label m found) _ h in
      let one =
        add_match-AllLabelled p.name p.label m found
          (λ v s. of_pattern p o (f m (inl refl)) refl refl s) a e in
      add_matches-AllLabelled p ms mid o (λ t i. f t (inr i)) one g

  add_patterns-AllLabelled :
      (ps : List SecretPattern) (found : Found) {next : Found}
      → ((p : SecretPattern) → OneOf p ps → OneOf p k.patterns)
      → AllLabelled found
      → add_patterns k text ps found ≡ some next
      → AllLabelled next
  unfolding add_patterns
  add_patterns-AllLabelled [] found {next} f a h = subst AllLabelled (some_eq h) a
  add_patterns-AllLabelled (p ∷ ps) found {next} f a h =
      let (mid, e, g) =
        and_then-some (add_matches k text p.name p.label (k.find p text) found) _ h in
      let one = add_matches-AllLabelled p (k.find p text) found (f p (inl refl)) (λ m i. i) a e in
      add_patterns-AllLabelled ps mid (λ q i. f q (inr i)) one g

  add_token-AllLabelled :
      (m : Span) (found : Found) {next : Found}
      → k.entropy_detection ≡ true
      → OneOf m (k.tokens text)
      → AllLabelled found
      → add_token k text m found ≡ some next
      → AllLabelled next
  unfolding add_token redact_label
  add_token-AllLabelled m found {next} d i a h =
      elim (Bool-cases (looks_like_secret k.is_random (slice m.start m.stop text))) [
        | inr e ↦ subst AllLabelled (some_eq (rw e at h)) a
        | inl e ↦
            add_match-AllLabelled (codes "entropy") (codes "high-entropy-secret") m found
              (λ v s. of_entropy d i e refl refl s) a (rw e at h)
      ]

  add_tokens-AllLabelled :
      (ms : List Span) (found : Found) {next : Found}
      → k.entropy_detection ≡ true
      → ((m : Span) → OneOf m ms → OneOf m (k.tokens text))
      → AllLabelled found
      → add_tokens k text ms found ≡ some next
      → AllLabelled next
  unfolding add_tokens
  add_tokens-AllLabelled [] found {next} d f a h = subst AllLabelled (some_eq h) a
  add_tokens-AllLabelled (m ∷ ms) found {next} d f a h =
      let (mid, e, g) = and_then-some (add_token k text m found) _ h in
      add_tokens-AllLabelled ms mid d (λ t i. f t (inr i))
        (add_token-AllLabelled m found d (f m (inl refl)) a e) g

  -- Every hit has its label.
  pub find_hits-IsLabelled :
      {found : Found} → find_hits k text ≡ some found → All (IsLabelled k text) found.hits
  unfolding find_hits
  find_hits-IsLabelled {found} h =
      let (mid, e, g) = and_then-some (add_patterns k text k.patterns nothing_found) _ h in
      let first = add_patterns-AllLabelled k.patterns nothing_found (λ p i. i) tt e in
      elim (Bool-cases k.entropy_detection) [
        | inr d ↦ subst AllLabelled (some_eq (rw d at g)) first
        | inl d ↦ add_tokens-AllLabelled (k.tokens text) mid d (λ m i. i) first (rw d at g)
      ]
