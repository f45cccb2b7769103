-- ===== src/Metrics.antt =====
-- MetricsCollector of src/core/metrics.py: the counters and the window of latencies. Latencies are
-- counted in hundredths of a millisecond, so that round(x, 2) keeps them. The Prometheus instruments
-- repeat the counters and belong to a third party.
pub mod Window
mod Examples
use sentinai_project.Common.{
  ℕ, zero, suc, ◌+◌, ◌-◌, ◌*◌, ◌/◌, min, max, Option, none, some, Bool, true, false, List, [], ◌∷◌,
  ◌++◌, ◌||◌, ltb, leb, if◌then◌else◌, length, drop,
}

-- RemediationSuggestion.source of src/models/events.py.
pub data SuggestionSource : Type 0 where
  stub provider fallback : SuggestionSource

abbrev pub is_fallback : SuggestionSource → Bool
is_fallback fallback = true
is_fallback _ = false

abbrev pub is_provider : SuggestionSource → Bool
is_provider provider = true
is_provider _ = false

pub record MetricsCollector : Type 0 where
  pub latencies : List ℕ
  pub total_suggestions : ℕ
  pub total_fallbacks : ℕ
  pub total_provider_calls : ℕ

abbrev pub no_metrics : MetricsCollector
no_metrics = record {
  latencies = [];
  total_suggestions = 0;
  total_fallbacks = 0;
  total_provider_calls = 0;
}

abbrev pub latency_window : ℕ
latency_window = 200

-- deque(maxlen=200).append: the oldest sample is dropped from a full window.
pub push : ℕ → List ℕ → List ℕ
push latency samples = drop (length samples + 1 - latency_window) (samples ++ latency ∷ [])

pub record_call : ℕ → SuggestionSource → MetricsCollector → MetricsCollector
unfolding push
record_call latency source m = record {
  latencies = push latency m.latencies;
  total_suggestions = m.total_suggestions + 1;
  total_fallbacks = if is_fallback source then m.total_fallbacks + 1 else m.total_fallbacks;
  total_provider_calls =
      if is_provider source || is_fallback source
      then m.total_provider_calls + 1
      else m.total_provider_calls;
}

pub insert : ℕ → List ℕ → List ℕ
insert a [] = a ∷ []
insert a (b ∷ bs) = let rest = insert a bs in if leb a b then a ∷ b ∷ bs else b ∷ rest

pub sorted : List ℕ → List ℕ
sorted [] = []
sorted (a ∷ as') = insert a (sorted as')

pub nth : List ℕ → ℕ → Option ℕ
nth [] i = none
nth (a ∷ as') zero = some a
nth (a ∷ as') (suc i) = nth as' i

-- percentile of snapshot, on the sorted samples; `max(0, int(n * p / 100) - 1)` is truncated
-- subtraction.
pub percentile : ℕ → List ℕ → Option ℕ
unfolding nth sorted insert
percentile p samples =
    let n = length samples in nth (sorted samples) (min (n * p / 100 - 1) (n - 1))
