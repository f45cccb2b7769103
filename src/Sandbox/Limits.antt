-- ===== src/Sandbox/Limits.antt =====
-- What a container that is launched has, and when the host is used.
use sentinai_project.Common.{
  ◌≤◌, ◌<◌, Bool, true, false, List, [], ◌∷◌, ◌++◌, ◌≡◌, ◌≢◌, ◌↔◌, refl, arith, ◌||◌, not, ltb, leb,
  str_eq, eq_iff, Result, ok, err,
}
use sentinai_project.Sandbox.{
  SandboxConfig, Ceilings, Violation, min_memory_mb, min_timeout_s, has_text, note, validate,
  enforce, enforce_found, Exit, TestResult, Place, nowhere, on_host, in_container, run_tests,
  blocked_run, run_enforced,
}

-- A config within all limits.
pub record IsSafe (max : Ceilings) (c : SandboxConfig) : Type 0 where
  pub memory_least : min_memory_mb ≤ c.memory_mb
  pub memory_most : c.memory_mb ≤ max.max_memory_mb
  pub cpus_least : 0 < c.cpus
  pub cpus_most : c.cpus ≤ max.max_cpus
  pub timeout_least : min_timeout_s ≤ c.timeout_seconds
  pub timeout_most : c.timeout_seconds ≤ max.max_timeout_s
  pub tmpfs_most : c.tmpfs_size_mb ≤ max.max_tmpfs_mb
  pub offline : c.network ≡ "none"
  pub read_only : c.read_only_root ≡ true
  pub named : c.user ≢ ""
  pub not_root : c.user ≢ "root"
  pub no_privileges : has_text "no-new-privileges" c.security_opt ≡ true
  pub no_capabilities : has_text "ALL" c.drop_capabilities ≡ true

note-nil :
    (b : Bool) (v : Violation) (rest : List Violation)
    → (note b v ++ rest) ≡ []
    → (b ≡ false) × (rest ≡ [])
note-nil true v rest h = cc
note-nil false v rest h = (refl, h)

enforce_found-ok : (vs : List Violation) → enforce_found vs ≡ ok tt → vs ≡ []
unfolding enforce_found
enforce_found-ok [] h = refl
enforce_found-ok (v ∷ vs) h = cc

module _ (max : Ceilings) (c : SandboxConfig) where
  -- The twelve tests of validate.
  abbrev Tests : Type 0
  Tests =
      (ltb c.memory_mb min_memory_mb ≡ false)
      × (ltb max.max_memory_mb c.memory_mb ≡ false)
      × (leb c.cpus 0 ≡ false)
      × (ltb max.max_cpus c.cpus ≡ false)
      × (ltb c.timeout_seconds min_timeout_s ≡ false)
      × (ltb max.max_timeout_s c.timeout_seconds ≡ false)
      × (ltb max.max_tmpfs_mb c.tmpfs_size_mb ≡ false)
      × (not (str_eq c.network "none") ≡ false)
      × (not c.read_only_root ≡ false)
      × ((str_eq c.user "" || str_eq c.user "root") ≡ false)
      × (not (has_text "no-new-privileges" c.security_opt) ≡ false)
      × (not (has_text "ALL" c.drop_capabilities) ≡ false)

  validate-Tests : validate max c ≡ [] → Tests
  unfolding validate
  validate-Tests h =
      let (t0, h0) = note-nil _ _ _ h in
      let (t1, h1) = note-nil _ _ _ h0 in
      let (t2, h2) = note-nil _ _ _ h1 in
      let (t3, h3) = note-nil _ _ _ h2 in
      let (t4, h4) = note-nil _ _ _ h3 in
      let (t5, h5) = note-nil _ _ _ h4 in
      let (t6, h6) = note-nil _ _ _ h5 in
      let (t7, h7) = note-nil _ _ _ h6 in
      let (t8, h8) = note-nil _ _ _ h7 in
      let (t9, h9) = note-nil _ _ _ h8 in
      let (t10, h10) = note-nil _ _ _ h9 in
      (t0, t1, t2, t3, t4, t5, t6, t7, t8, t9, t10, note_last _ _ h10)
    where
      note_last : (b : Bool) (v : Violation) → note b v ≡ [] → b ≡ false
      note_last true v k = cc
      note_last false v k = refl

  Tests-validate : Tests → validate max c ≡ []
  unfolding validate
  Tests-validate t = rw t.0 (
      rw t.1
        (rw t.2 (rw t.3 (rw t.4 (rw t.5 (rw t.6 (rw t.7 (rw t.8 (rw t.9 (rw t.10 (rw t.11)))))))))))

  Tests-IsSafe : Tests → IsSafe max c
  Tests-IsSafe t = record {
    memory_least = ground (arith, t.0);
    memory_most = ground (arith, t.1);
    cpus_least = ground (arith, t.2);
    cpus_most = ground (arith, t.3);
    timeout_least = ground (arith, t.4);
    timeout_most = ground (arith, t.5);
    tmpfs_most = ground (arith, t.6);
    offline = ground (arith, t.7, eq_iff c.network "none");
    read_only = ground (arith, t.8);
    named = ground (arith, t.9, eq_iff c.user "");
    not_root = ground (arith, t.9, eq_iff c.user "root");
    no_privileges = ground (arith, t.10);
    no_capabilities = ground (arith, t.11);
  }

  IsSafe-Tests : IsSafe max c → Tests
  IsSafe-Tests s = (
    ground (arith, s.memory_least),
    ground (arith, s.memory_most),
    ground (arith, s.cpus_least),
    ground (arith, s.cpus_most),
    ground (arith, s.timeout_least),
    ground (arith, s.timeout_most),
    ground (arith, s.tmpfs_most),
    ground (arith, s.offline, eq_iff c.network "none"),
    ground (arith, s.read_only),
    ground (arith, s.named, s.not_root, eq_iff c.user "", eq_iff c.user "root"),
    ground (arith, s.no_privileges),
    ground (arith, s.no_capabilities),
  )

  -- The enforcer accepts a config exactly if memory, CPUs, timeout and tmpfs are within their
  -- bounds, the network is none, the root is read-only, the user is neither empty nor root, new
  -- privileges are forbidden and all capabilities dropped.
  pub enforce-IsSafe : (enforce max c ≡ ok tt) ↔ IsSafe max c
  unfolding enforce
  enforce-IsSafe = (
    λ h. Tests-IsSafe (validate-Tests (enforce_found-ok (validate max c) h)),
    λ s. rw (Tests-validate (IsSafe-Tests s), enforce_found) refl,
  )

  enforced :
      (exit : Exit) {r : TestResult} {place : Place} (e : Result (List Violation) (Unit {0}))
      → enforce max c ≡ e
      → run_enforced exit e ≡ ok (r, place)
      → (place ≡ in_container) × IsSafe max c
  unfolding run_enforced
  enforced exit (ok _) e h = (ground arith, enforce-IsSafe.0 e)
  enforced exit (err vs) e h = cc

  -- If run_tests returns, then the tests ran in a container only if docker is there and the config
  -- is within all limits, on the host only if docker is not there and the config allows the
  -- fallback, and nowhere only if neither holds, with the result of a blocked run.
  pub run_tests-place :
      (docker_available : Bool) (exit : Exit) {r : TestResult} {place : Place}
      → run_tests max c docker_available exit ≡ ok (r, place)
      → (place ≡ in_container → (docker_available ≡ true) × IsSafe max c)
        × (place ≡ on_host → (docker_available ≡ false) × (c.allow_host_fallback ≡ true))
        × (place ≡ nowhere
            → (docker_available ≡ false) × (c.allow_host_fallback ≡ false) × (r ≡ blocked_run))
  unfolding run_tests
  run_tests-place true exit h =
      let (there, safe) = enforced exit (enforce max c) refl h in
      (λ _. (refl, safe), λ k. cc, λ k. cc)
  run_tests-place false exit h = ground (arith, h)
