-- ===== src/Sandbox/Examples.antt =====
-- The default config.
use sentinai_project.Common.{Bool, true, false, ◌≡◌, ◌↔◌, refl, codes, ok}
use sentinai_project.Sandbox.{
  default_config, default_ceilings, enforce, validate, run_tests, run_in_container, exited, nowhere,
  on_host, in_container, blocked_run,
}
use sentinai_project.Sandbox.Limits.{IsSafe, enforce-IsSafe, run_tests-place}

enforce-IsSafe_example :
    (enforce default_ceilings default_config ≡ ok tt) ↔ IsSafe default_ceilings default_config
enforce-IsSafe_example = enforce-IsSafe default_ceilings default_config

run_tests-place_example :
    (in_container ≡ in_container
      → ◌≡◌ {A = Bool} true true × IsSafe default_ceilings default_config)
    × (in_container ≡ on_host
        → ◌≡◌ {A = Bool} true false × (default_config.allow_host_fallback ≡ true))
    × (in_container ≡ nowhere
        → ◌≡◌ {A = Bool} true false
          × (default_config.allow_host_fallback ≡ false)
          × (run_in_container (exited 0 (codes "1 passed")) ≡ blocked_run))
unfolding run_tests enforce validate
run_tests-place_example =
    run_tests-place default_ceilings default_config true (exited 0 (codes "1 passed")) refl
