-- ===== src/Sandbox.antt =====
-- The sandbox of the patch runner: SandboxConfig of src/services/sandbox_config.py,
-- ResourceLimitEnforcer of src/services/resource_enforcer.py and run_tests of
-- SandboxedPatchRunner in src/services/sandbox_runner.py.
-- CPUs are counted in thousandths. The exit of a process is an argument.
pub mod Limits
mod Examples
use sentinai_project.Common.{
  ℕ, String, Option, none, some, Bool, true, false, List, [], ◌∷◌, ◌++◌, ◌||◌, not, ltb, leb, ◌==◌,
  str_eq, if◌then◌else◌, any_of, Text, codes, Result, ok, err,
}

pub record SandboxConfig : Type 0 where
  pub image : String
  pub network : String
  pub read_only_root : Bool
  pub tmpfs_workspace : Bool
  pub tmpfs_size_mb : ℕ
  pub memory_mb : ℕ
  pub cpus : ℕ
  pub timeout_seconds : ℕ
  pub user : String
  pub workspace_mount : String
  pub project_mount : String
  pub security_opt : List String
  pub drop_capabilities : List String
  pub allow_host_fallback : Bool

-- The dataclass's defaults, which from_yaml uses for a missing file.
abbrev pub default_config : SandboxConfig
default_config = record {
  image = "sentinai-sandbox:latest";
  network = "none";
  read_only_root = true;
  tmpfs_workspace = true;
  tmpfs_size_mb = 64;
  memory_mb = 256;
  cpus = 500;
  timeout_seconds = 120;
  user = "sentinai";
  workspace_mount = "/workspace";
  project_mount = "/app";
  security_opt = "no-new-privileges" ∷ [];
  drop_capabilities = "ALL" ∷ [];
  allow_host_fallback = false;
}

-- The hard ceilings, which the environment may set, and the two minima, which it may not.
pub record Ceilings : Type 0 where
  pub max_memory_mb : ℕ
  pub max_cpus : ℕ
  pub max_timeout_s : ℕ
  pub max_tmpfs_mb : ℕ

abbrev pub default_ceilings : Ceilings
default_ceilings = record {
  max_memory_mb = 1024;
  max_cpus = 2000;
  max_timeout_s = 300;
  max_tmpfs_mb = 256;
}

abbrev pub min_memory_mb : ℕ
min_memory_mb = 64

abbrev pub min_timeout_s : ℕ
min_timeout_s = 10

-- The violations, one for each message.
pub data Violation : Type 0 where
  memory_low memory_high cpus_zero cpus_high timeout_low timeout_high tmpfs_high : Violation
  network_open root_writable user_root privileges_open capabilities_kept : Violation

abbrev pub has_text : String → List String → Bool
has_text s xs = any_of (λ x. str_eq x s) xs

-- `if test: violations.append(v)`
abbrev pub note : Bool → Violation → List Violation
note test v = if test then v ∷ [] else []

pub validate : Ceilings → SandboxConfig → List Violation
validate max config =
    note (ltb config.memory_mb min_memory_mb) memory_low
    ++ (note (ltb max.max_memory_mb config.memory_mb) memory_high
        ++ (note (leb config.cpus 0) cpus_zero
            ++ (note (ltb max.max_cpus config.cpus) cpus_high
                ++ (note (ltb config.timeout_seconds min_timeout_s) timeout_low
                    ++ (note (ltb max.max_timeout_s config.timeout_seconds) timeout_high
                        ++ (note (ltb max.max_tmpfs_mb config.tmpfs_size_mb) tmpfs_high
                            ++ (note (not (str_eq config.network "none")) network_open
                                ++ (note (not config.read_only_root) root_writable
                                    ++ (note (str_eq config.user "" || str_eq config.user "root")
                                          user_root
                                        ++ (note
                                              (not
                                                (has_text "no-new-privileges" config.security_opt))
                                              privileges_open
                                            ++ note (not (has_text "ALL" config.drop_capabilities))
                                                capabilities_kept))))))))))

-- enforce: the violations are the ValueError.
pub enforce_found : List Violation → Result (List Violation) (Unit {0})
enforce_found [] = ok tt
enforce_found (v ∷ vs) = err (v ∷ vs)

pub enforce : Ceilings → SandboxConfig → Result (List Violation) (Unit {0})
unfolding enforce_found
enforce max config = enforce_found (validate max config)

-- How a process ends: with an exit code or by a signal, and with its output, by the timeout, or it
-- could not be started and there is an error's text.
pub data Exit : Type 0 where
  exited killed : ℕ → Text → Exit
  timed_out : Exit
  not_started : Text → Exit

-- subprocess gives an exit code, and -n for the signal n. The runners use -1 and -2 too.
pub data ReturnCode : Type 0 where
  code minus : ℕ → ReturnCode

pub record TestResult : Type 0 where
  pub success : Bool
  pub output : Text
  pub returncode : ReturnCode

-- Where the tests ran.
pub data Place : Type 0 where
  nowhere on_host in_container : Place

-- The end of run_tests of PatchRunner (src/services/patch_runner.py) and of _run_in_container, with
-- the messages of the one or the other. `stdout + stderr`, stripped, is the process's output.
unfoldable pub run_process : Text → Text → Exit → TestResult
run_process late broken (exited n output) = record {
  success = n == 0;
  output = output;
  returncode = code n;
}
run_process late broken (killed n output) = record {
  success = false;
  output = output;
  returncode = minus n;
}
run_process late broken timed_out = record { success = false; output = late; returncode = minus 1 }
run_process late broken (not_started e) = record {
  success = false;
  output = broken ++ e;
  returncode = minus 1;
}

unfoldable pub run_on_host : Exit → TestResult
run_on_host exit = run_process (codes "pytest timed out") (codes "pytest invocation error: ") exit

pub run_in_container : Exit → TestResult
run_in_container exit =
    run_process (codes "Sandbox container timed out.") (codes "docker run invocation error: ") exit

unfoldable pub blocked_run : TestResult
blocked_run = record {
  success = false;
  output =
      codes
        "[SANDBOX BLOCKED] Docker is required for isolated patch execution. The patch was NOT run on the host machine. Install Docker or set allow_host_fallback=True for dev use.";
  returncode = minus 2;
}

run_enforced :
    Exit → Result (List Violation) (Unit {0}) → Result (List Violation) (TestResult × Place)
run_enforced exit (ok _) = ok (run_in_container exit, in_container)
run_enforced exit (err vs) = err vs

-- run_tests: the fallback to the host, the block (D2), the enforcement of the limits, and the run.
unfoldable pub run_tests :
    Ceilings → SandboxConfig → Bool → Exit → Result (List Violation) (TestResult × Place)
unfolding run_enforced
run_tests max config docker_available exit =
    if docker_available
    then run_enforced exit (enforce max config)
    else if config.allow_host_fallback
    then ok (run_on_host exit, on_host)
    else ok (blocked_run, nowhere)
