-- ===== src/Remediation/Gated.antt =====
-- When an engine opens a pull request.
use sentinai_project.Common.{
  ◌≡◌, refl, arith, String, str_eq, Option, none, some, true, false, Text, Result, Bool-cases, inl,
  inr,
}
use sentinai_project.Events.{LogIncident}
use sentinai_project.RateLimit.{consume}
use sentinai_project.Remediation.{
  Engine, Surroundings, Suggestion, PrCall, Opened, truthy, throttled_suggestion, suggest_fix,
  withhold_or_open, open_pr, pr_call, analyze, with_mode,
}

-- What the engine asks open_patch_pr for: the suggestion that the client's answer gives.
abbrev pub answered : Surroundings → LogIncident → String → Suggestion
answered c incident mode = with_mode mode c.model_name (analyze (c.analyze_incident incident))

-- A pull request is opened only with a token of the limiter, for a suggestion with a patch, in the
-- mode auto_pr, and by a client that is there.
pub record MayOpen (e : Engine) (c : Surroundings) (incident : LogIncident) (mode : String)
    (call : PrCall) : Type 0 where
  pub llm_granted : (consume c.llm_time e.llm).1 ≡ true
  pub pr_granted : (consume c.pr_time e.pr).1 ≡ true
  pub automatic : str_eq mode "auto_pr" ≡ true
  pub has_patch : truthy (answered c incident mode).proposed_patch ≡ true
  pub calls : call ≡ pr_call incident (answered c incident mode) none

open_pr-opens :
    (e : Engine) (c : Surroundings) (incident : LogIncident) (s : Suggestion)
    (github : Option (PrCall → Result Text (Option Opened))) {call : PrCall}
    → (open_pr e c incident s github).2 ≡ some call
    → ((consume c.pr_time e.pr).1 ≡ true) × (call ≡ pr_call incident s none)
unfolding open_pr
open_pr-opens e c incident s none h = cc
open_pr-opens e c incident s (some f) h = elim (Bool-cases (consume c.pr_time e.pr).1) [
  | inl k ↦ (k, ground (arith, k, h))
  | inr k ↦ cc (rw k at h)
]

module _ (e : Engine) (c : Surroundings) (incident : LogIncident) (mode : String) where
  -- If suggest_fix calls open_patch_pr, then both limiters had a token, the mode is auto_pr, the
  -- suggestion has a patch, and the call is the one for the client's answer.
  pub suggest_fix-opens :
      {call : PrCall}
      → (suggest_fix e c incident mode).2 ≡ some call
      → MayOpen e c incident mode call
  unfolding suggest_fix withhold_or_open
  suggest_fix-opens {call} h = elim (Bool-cases (consume c.llm_time e.llm).1) [
    | inr k ↦ cc (rw k at h)
    | inl k ↦ elim (Bool-cases (truthy (answered c incident mode).proposed_patch)) [
      | inr t ↦ cc (rw (k, t) at h)
      | inl t ↦ elim (Bool-cases (str_eq mode "auto_pr")) [
        | inr a ↦ cc (rw (k, t, a) at h)
        | inl a ↦
            let (granted, calls) = open_pr-opens _ c incident _ c.github (rw (k, t, a) at h) in
            record {
              llm_granted = k;
              pr_granted = granted;
              automatic = a;
              has_patch = t;
              calls = calls;
            }
      ]
    ]
  ]

  -- Without a token of the first limiter the suggestion is the stub's, marked as a fallback with a
  -- confidence of 0.1, and nothing is recorded in the metrics or opened; with one, in another mode
  -- than auto_pr, a suggestion with a patch awaits approval, no pull request is opened, and the
  -- second limiter is left as it was.
  pub suggest_fix-withholds :
      ((consume c.llm_time e.llm).1 ≡ false
        → ((suggest_fix e c incident mode).1 ≡ throttled_suggestion)
          × ((suggest_fix e c incident mode).2 ≡ none)
          × ((suggest_fix e c incident mode).0.metrics ≡ e.metrics)
          × ((suggest_fix e c incident mode).0.pr ≡ e.pr))
      × ((consume c.llm_time e.llm).1 ≡ true
          → str_eq mode "auto_pr" ≡ false
          → truthy (answered c incident mode).proposed_patch ≡ true
          → ((suggest_fix e c incident mode).1
              ≡ record (answered c incident mode) { awaiting_approval = true })
            × ((suggest_fix e c incident mode).2 ≡ none)
            × ((suggest_fix e c incident mode).0.pr ≡ e.pr))
  unfolding suggest_fix withhold_or_open
  suggest_fix-withholds = (
    λ h. (rw h refl, rw h refl, rw h refl, rw h refl),
    λ h k t. (rw (h, t, k) refl, rw (h, t, k) refl, rw (h, t, k) refl),
  )
