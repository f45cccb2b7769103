-- ===== src/Metrics/Window.antt =====
-- The bounds of the window and of the counters, and the percentiles.
use sentinai_project.Common.{
  ℕ, zero, suc, ◌+◌, ◌-◌, ◌*◌, ◌/◌, ◌≤◌, ◌<◌, min, some, List, [], ◌∷◌, ◌++◌, ◌≡◌, refl, arith, leb,
  length, length-append, drop, Bool-cases, inl, inr, All,
}
use sentinai_project.Metrics.{
  SuggestionSource, MetricsCollector, latency_window, push, record_call, insert, sorted, nth,
  percentile,
}

length-drop : (n : ℕ) (xs : List ℕ) → length (drop n xs) ≡ length xs - n
length-drop zero xs = omega arith
length-drop (suc n) [] = omega arith
length-drop (suc n) (x ∷ xs) = omega (arith, length-drop n xs)

-- What a collector keeps, however it is used.
pub record IsValid (m : MetricsCollector) : Type 0 where
  pub windowed : length m.latencies ≤ latency_window
  pub called : m.total_fallbacks ≤ m.total_provider_calls
  pub suggested : m.total_provider_calls ≤ m.total_suggestions

-- If the window has at most 200 samples, and there are no more fallbacks than provider calls and
-- no more of those than suggestions, this still holds after a call is recorded.
pub record_call-IsValid :
    (latency : ℕ) (source : SuggestionSource) (m : MetricsCollector)
    → IsValid m
    → IsValid (record_call latency source m)
unfolding record_call push
record_call-IsValid latency source m v = record {
  windowed = omega (
    arith,
    length-drop (length m.latencies + 1 - latency_window) (m.latencies ++ latency ∷ []),
    length-append m.latencies (latency ∷ []),
    v.windowed,
  );
  called = ground (arith, v.called);
  suggested = ground (arith, v.suggested);
}

-- Each element is at most the next ones.
abbrev pub IsSorted : List ℕ → Type 0
IsSorted [] = Unit
IsSorted (a ∷ as') = All (λ b. a ≤ b) as' × IsSorted as'

All-insert :
    (c a : ℕ) (as' : List ℕ) → c ≤ a → All (λ b. c ≤ b) as' → All (λ b. c ≤ b) (insert a as')
unfolding insert
All-insert c a [] h k = (h, tt)
All-insert c a (b ∷ bs) h k = elim (Bool-cases (leb a b)) [
  | inl e ↦ rw e (h, k)
  | inr e ↦ rw e (k.0, All-insert c a bs h k.1)
]

All-trans : (a b : ℕ) (bs : List ℕ) → a ≤ b → All (λ x. b ≤ x) bs → All (λ x. a ≤ x) bs
All-trans a b [] h k = tt
All-trans a b (x ∷ xs) h k = (omega (arith, h, k.0), All-trans a b xs h k.1)

insert-IsSorted : (a : ℕ) (as' : List ℕ) → IsSorted as' → IsSorted (insert a as')
unfolding insert
insert-IsSorted a [] s = (tt, tt)
insert-IsSorted a (b ∷ bs) s = elim (Bool-cases (leb a b)) [
  | inl e ↦ let h : a ≤ b = ground arith in rw e ((h, All-trans a b bs h s.0), s)
  | inr e ↦ let h : b ≤ a = ground arith in rw e (All-insert b a bs h s.0, insert-IsSorted a bs s.1)
]

sorted-IsSorted : (as' : List ℕ) → IsSorted (sorted as')
unfolding sorted
sorted-IsSorted [] = tt
sorted-IsSorted (a ∷ as') = insert-IsSorted a (sorted as') (sorted-IsSorted as')

length-insert : (a : ℕ) (as' : List ℕ) → length (insert a as') ≡ suc (length as')
unfolding insert
length-insert a [] = refl
length-insert a (b ∷ bs) = ground (arith, length-insert a bs)

length-sorted : (as' : List ℕ) → length (sorted as') ≡ length as'
unfolding sorted
length-sorted [] = refl
length-sorted (a ∷ as') = omega (arith, length-insert a (sorted as'), length-sorted as')

nth-All : (c : ℕ) (as' : List ℕ) (i : ℕ) {x : ℕ} → All (λ b. c ≤ b) as' → nth as' i ≡ some x → c ≤ x
unfolding nth
nth-All c [] i h e = cc
nth-All c (a ∷ as') zero h e = ground (arith, h.0)
nth-All c (a ∷ as') (suc i) h e = nth-All c as' i h.1 e

nth_mono :
    (as' : List ℕ) (i j : ℕ) {x y : ℕ}
    → IsSorted as'
    → i ≤ j
    → nth as' i ≡ some x
    → nth as' j ≡ some y
    → x ≤ y
unfolding nth
nth_mono [] i j s h e f = cc
nth_mono (a ∷ as') zero zero s h e f = ground arith
nth_mono (a ∷ as') zero (suc j) {x} s h e f = let k = nth-All a as' j s.0 f in ground (arith, k)
nth_mono (a ∷ as') (suc i) zero s h e f = absurd (omega arith)
nth_mono (a ∷ as') (suc i) (suc j) s h e f = nth_mono as' i j s.1 (omega arith) e f

nth-total : (as' : List ℕ) (i : ℕ) → i < length as' → (x : ℕ) × (nth as' i ≡ some x)
unfolding nth
nth-total [] i h = absurd (omega arith)
nth-total (a ∷ as') zero h = (a, refl)
nth-total (a ∷ as') (suc i) h = nth-total as' i (omega arith)

-- With at least one sample every percentile exists, and a higher one is not smaller.
pub percentile_mono :
    (p q : ℕ) (samples : List ℕ)
    → p ≤ q
    → 0 < length samples
    → (x : ℕ) × (y : ℕ) × (percentile p samples ≡ some x)
      × (percentile q samples ≡ some y)
      × (x ≤ y)
unfolding percentile
percentile_mono p q samples h k =
    let n = length samples in
    let len = length-sorted samples in
    let (x, e) = nth-total (sorted samples) (min (n * p / 100 - 1) (n - 1)) (omega (arith, len)) in
    let (y, f) = nth-total (sorted samples) (min (n * q / 100 - 1) (n - 1)) (omega (arith, len)) in
    (x, y, e, f, nth_mono (sorted samples) _ _ (sorted-IsSorted samples) (index_mono n p q h) e f)
  where
    index_mono : (n p q : ℕ) → p ≤ q → min (n * p / 100 - 1) (n - 1) ≤ min (n * q / 100 - 1) (n - 1)
    index_mono n p q h = grind arith
