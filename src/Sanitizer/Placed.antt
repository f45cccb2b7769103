-- ===== src/Sanitizer/Placed.antt =====
-- The spans that are redacted: they lie apart, and each match meets one of them.
use sentinai_project.Common.{
  subst, length, ℕ, ◌≤◌, ◌<◌, ◌≡◌, refl, sym, ap, ◌∙◌, arith, ◌⊎◌, inl, inr, some, true, false,
  ◌&&◌, List, [], ◌∷◌, ◌++◌, map, any_of, ltb, Bool-cases, Option-cases, and_then-some, All,
  All-append, Text,
}
use sentinai_project.Sanitizer.{
  Span, SecretPattern, Hit, Found, Settings, slice, overlaps, looks_like_secret, take_match,
  add_match, add_matches, add_patterns, add_token, nothing_found, add_tokens, find_hits,
}

-- A match is not empty and within the text.
pub record IsWithin (n : ℕ) (s : Span) : Type 0 where
  pub nonempty : s.start < s.stop
  pub inside : s.stop ≤ n

abbrev pub Apart : Span → Span → Type 0
Apart s t = (s.stop ≤ t.start) ⊎ (t.stop ≤ s.start)

abbrev pub AllApart : List Span → Type 0
AllApart [] = Unit
AllApart (s ∷ ss) = All (Apart s) ss × AllApart ss

abbrev pub span_of : Hit → Span
span_of h = h.entry.span

-- What both passes keep.
pub record IsPlaced (n : ℕ) (found : Found) : Type 0 where
  pub same : found.seen ≡ map span_of found.hits
  pub within : All (IsWithin n) found.seen
  pub apart : AllApart found.seen

seen-Apart : (m : Span) (seen : List Span) → overlaps m seen ≡ false → All (λ s. Apart s m) seen
unfolding overlaps
seen-Apart m [] h = tt
seen-Apart m (s ∷ seen) h = (ground (arith, h), seen-Apart m seen (ground (arith, h)))

AllApart-snoc :
    (m : Span) (seen : List Span)
    → AllApart seen
    → All (λ s. Apart s m) seen
    → AllApart (seen ++ m ∷ [])
AllApart-snoc m [] a h = (tt, tt)
AllApart-snoc m (s ∷ seen) a h =
    (All-append (Apart s) seen (m ∷ []) a.0 (h.0, tt), AllApart-snoc m seen a.1 h.1)

map-snoc : (hs : List Hit) (h : Hit) → map span_of (hs ++ h ∷ []) ≡ map span_of hs ++ span_of h ∷ []
map-snoc [] h = refl
map-snoc (x ∷ hs) h = ap (λ ss. span_of x ∷ ss) (map-snoc hs h)

overlaps-snoc :
    (m s : Span) (seen : List Span) → overlaps m seen ≡ true → overlaps m (seen ++ s ∷ []) ≡ true
unfolding overlaps
overlaps-snoc m s [] h = cc
overlaps-snoc m s (t ∷ seen) h =
    elim (Bool-cases (any_of (λ u. ltb u.start m.stop && ltb m.start u.stop) seen)) [
      | inl e ↦ ground (arith, overlaps-snoc m s seen e)
      | inr e ↦ ground (arith, h, e)
    ]

overlaps_self :
    (n : ℕ) (m : Span) (seen : List Span) → IsWithin n m → overlaps m (seen ++ m ∷ []) ≡ true
unfolding overlaps
overlaps_self n m [] w = ground (arith, w.nonempty)
overlaps_self n m (t ∷ seen) w = ground (arith, overlaps_self n m seen w)

-- One step of a pass: the state is still placed, keeps what met it, and the match meets it now.
pub record IsStep (n : ℕ) (found next : Found) : Type 0 where
  pub placed : IsPlaced n next
  pub meets : (t : Span) → overlaps t found.seen ≡ true → overlaps t next.seen ≡ true

some_eq {ℓ} : {A : Type ℓ} {a b : A} → some a ≡ some b → a ≡ b
some_eq h = cc

IsStep-refl : (n : ℕ) (found : Found) → IsPlaced n found → IsStep n found found
IsStep-refl n found p = record { placed = p; meets = λ t o. o }

IsStep-trans : (n : ℕ) (a b c : Found) → IsStep n a b → IsStep n b c → IsStep n a c
IsStep-trans n a b c s t = record { placed = t.placed; meets = λ u o. t.meets u (s.meets u o) }

take_match-IsStep :
    (n : ℕ) (name label : Text) (m : Span) (value_hash : Text) (found : Found)
    → IsWithin n m
    → IsPlaced n found
    → overlaps m found.seen ≡ false
    → IsStep n found (take_match name label m value_hash found)
unfolding take_match
take_match-IsStep n name label m value_hash found w p e = record {
  placed = record {
    same = ap (λ ss. ss ++ m ∷ []) p.same ∙ sym (map-snoc found.hits _);
    within = All-append (IsWithin n) found.seen (m ∷ []) p.within (w, tt);
    apart = AllApart-snoc m found.seen p.apart (seen-Apart m found.seen e);
  };
  meets = λ t o. overlaps-snoc t m found.seen o;
}

abbrev pub AllMet : List Span → List Span → Type 0
AllMet seen ms = All (λ m. overlaps m seen ≡ true) ms

AllMet-step :
    (seen later ms : List Span)
    → ((t : Span) → overlaps t seen ≡ true → overlaps t later ≡ true)
    → AllMet seen ms
    → AllMet later ms
AllMet-step seen later [] f h = tt
AllMet-step seen later (m ∷ ms) f h = (f m h.0, AllMet-step seen later ms f h.1)

module _ (k : Settings) (text : Text) (n : ℕ) where
  -- A match is taken or skipped.
  add_match-IsStep :
      (name label : Text) (m : Span) (found : Found) {next : Found}
      → IsWithin n m
      → IsPlaced n found
      → add_match k text name label m found ≡ some next
      → IsStep n found next × (overlaps m next.seen ≡ true)
  unfolding add_match
  add_match-IsStep name label m found {next} w p h = elim (Bool-cases (overlaps m found.seen)) [
    | inl e ↦
        let same : found ≡ next = some_eq (rw e at h) in
        subst (λ f. IsStep n found f × (overlaps m f.seen ≡ true)) same (IsStep-refl n found p, e)
    | inr e ↦ elim (Option-cases (k.hash (slice m.start m.stop text))) [
      | inl g ↦ cc (rw (e, g) at h)
      | inr (v, g) ↦
          let same : take_match name label m v found ≡ next = some_eq (rw (e, g) at h) in
          subst (λ f. IsStep n found f × (overlaps m f.seen ≡ true)) same
            (take_match-IsStep n name label m v found w p e, taken v)
    ]
  ]
    where
      taken : (v : Text) → overlaps m (take_match name label m v found).seen ≡ true
      taken v = overlaps_self n m found.seen w

  add_matches-IsStep :
      (name label : Text) (ms : List Span) (found : Found) {next : Found}
      → All (IsWithin n) ms
      → IsPlaced n found
      → add_matches k text name label ms found ≡ some next
      → IsStep n found next × All (λ m. overlaps m next.seen ≡ true) ms
  unfolding add_matches
  add_matches-IsStep name label [] found {next} w p h =
      (subst (IsStep n found) (some_eq h) (IsStep-refl n found p), tt)
  add_matches-IsStep name label (m ∷ ms) found {next} w p h =
      let (mid, e, g) = and_then-some (add_match k text name label m found) _ h in
      let (step, met) = add_match-IsStep name label m found w.0 p e in
      let (rest, mets) = add_matches-IsStep name label ms mid w.1 step.placed g in
      (IsStep-trans n found mid next step rest, (rest.meets m met, mets))

  add_patterns-IsStep :
      (ps : List SecretPattern) (found : Found) {next : Found}
      → ((p : SecretPattern) → All (IsWithin n) (k.find p text))
      → IsPlaced n found
      → add_patterns k text ps found ≡ some next
      → IsStep n found next × All (λ p. All (λ m. overlaps m next.seen ≡ true) (k.find p text)) ps
  unfolding add_patterns
  add_patterns-IsStep [] found {next} w p h =
      (subst (IsStep n found) (some_eq h) (IsStep-refl n found p), tt)
  add_patterns-IsStep (q ∷ qs) found {next} w p h =
      let (mid, e, g) =
        and_then-some (add_matches k text q.name q.label (k.find q text) found) _ h in
      let (step, met) = add_matches-IsStep q.name q.label (k.find q text) found (w q) p e in
      let (rest, mets) = add_patterns-IsStep qs mid w step.placed g in
      (
        IsStep-trans n found mid next step rest,
        (AllMet-step mid.seen next.seen (k.find q text) rest.meets met, mets),
      )

  add_token-IsStep :
      (m : Span) (found : Found) {next : Found}
      → IsWithin n m
      → IsPlaced n found
      → add_token k text m found ≡ some next
      → IsStep n found next
  unfolding add_token
  add_token-IsStep m found {next} w p h =
      elim (Bool-cases (looks_like_secret k.is_random (slice m.start m.stop text))) [
        | inr e ↦ subst (IsStep n found) (some_eq (rw e at h)) (IsStep-refl n found p)
        | inl e ↦ (add_match-IsStep _ _ m found w p (rw e at h)).0
      ]

  add_tokens-IsStep :
      (ms : List Span) (found : Found) {next : Found}
      → All (IsWithin n) ms
      → IsPlaced n found
      → add_tokens k text ms found ≡ some next
      → IsStep n found next
  unfolding add_tokens
  add_tokens-IsStep [] found {next} w p h =
      subst (IsStep n found) (some_eq h) (IsStep-refl n found p)
  add_tokens-IsStep (m ∷ ms) found {next} w p h =
      let (mid, e, g) = and_then-some (add_token k text m found) _ h in
      let step = add_token-IsStep m found w.0 p e in
      IsStep-trans n found mid next step (add_tokens-IsStep ms mid w.1 step.placed g)

-- What re.finditer gives on a text: the matches of the patterns, and of the tokens, are not empty and
-- lie within it.
pub record IsFinder (k : Settings) (text : Text) : Type 0 where
  pub found : (p : SecretPattern) → All (IsWithin (length text)) (k.find p text)
  pub found_tokens : All (IsWithin (length text)) (k.tokens text)

-- Every match of a pattern overlaps a redacted span.
abbrev pub AllMeet : Settings → Text → List Span → Type 0
AllMeet k text seen = All (λ p. All (λ m. overlaps m seen ≡ true) (k.find p text)) k.patterns

pub AllMeet-step :
    (k : Settings) (text : Text) (seen later : List Span) (ps : List SecretPattern)
    → ((t : Span) → overlaps t seen ≡ true → overlaps t later ≡ true)
    → All (λ p. AllMet seen (k.find p text)) ps
    → All (λ p. AllMet later (k.find p text)) ps
AllMeet-step k text seen later [] f h = tt
AllMeet-step k text seen later (p ∷ ps) f h =
    (AllMet-step seen later (k.find p text) f h.0, AllMeet-step k text seen later ps f h.1)

pub find_hits-IsPlaced :
    (k : Settings) (text : Text) {found : Found}
    → IsFinder k text
    → find_hits k text ≡ some found
    → IsPlaced (length text) found × AllMeet k text found.seen
unfolding find_hits
find_hits-IsPlaced k text {found} w h =
    let (mid, e, g) = and_then-some (add_patterns k text k.patterns nothing_found) _ h in
    let start : IsPlaced (length text) nothing_found = record {
      same = refl;
      within = tt;
      apart = tt;
    } in
    let (step, met) = add_patterns-IsStep k text (length text) k.patterns _ w.found start e in
    elim (Bool-cases k.entropy_detection) [
      | inr d ↦
          let same : mid ≡ found = some_eq (rw d at g) in
          subst (λ f. IsPlaced (length text) f × AllMeet k text f.seen) same (step.placed, met)
      | inl d ↦
          let more =
            add_tokens-IsStep k text (length text) (k.tokens text) mid w.found_tokens step.placed
              (rw d at g) in
          (more.placed, AllMeet-step k text mid.seen found.seen k.patterns more.meets met)
    ]
