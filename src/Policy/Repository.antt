-- ===== src/Policy/Repository.antt =====
-- The policy that the repository ships, sentinai-policy.yml.
use sentinai_project.Common.{some, true, false, [], ◌∷◌, codes}
use sentinai_project.Policy.{Policy}

abbrev pub repository_policy : Policy
repository_policy = record {
  blocked_paths =
      codes ".env"
      ∷ codes ".env.example"
      ∷ codes "secrets/"
      ∷ codes "infra/"
      ∷ codes "docker/"
      ∷ codes "migrations/"
      ∷ codes "Dockerfile"
      ∷ codes "docker-compose.yml"
      ∷ codes ".github/"
      ∷ codes "sentinai-policy.yml"
      ∷ [];
  allowed_paths = codes "src/" ∷ codes "tests/" ∷ [];
  forbidden_patterns =
      codes "shell=True"
      ∷ codes "exec("
      ∷ codes "eval("
      ∷ codes "subprocess.Popen"
      ∷ codes "os.system"
      ∷ codes "__import__"
      ∷ codes "importlib.import_module"
      ∷ codes "open("
      ∷ codes "pickle.loads"
      ∷ codes "yaml.load("
      ∷ [];
  max_files_changed = some 5;
  max_patch_lines = some 120;
  high_tier = record {
    block = true;
    require_human_review = false;
    patterns =
        codes "src/api/security"
        ∷ codes "auth"
        ∷ codes "token"
        ∷ codes "password"
        ∷ codes "secret"
        ∷ codes "credential"
        ∷ codes "jwt"
        ∷ codes "migrations/"
        ∷ [];
  };
  medium_tier = record {
    block = false;
    require_human_review = true;
    patterns = codes "src/services/" ∷ codes "src/core/" ∷ codes "src/models/" ∷ [];
  };
  low_tier = record {
    block = false;
    require_human_review = false;
    patterns = codes "tests/" ∷ codes ".md" ∷ codes "logging" ∷ codes "comment" ∷ [];
  };
}
