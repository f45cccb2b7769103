-- ===== src/Validator/Priv.antt =====
-- The PRIV rule set: calls of dangerous names.
use sentinai_project.Common.{
  zero, suc, ℕ, ◌+◌, ◌/◌, ◌%◌, Bool, true, false, Option, none, some, List, [], ◌∷◌, ◌++◌, ◌&&◌,
  ◌||◌, not, ◌==◌, if◌then◌else◌, Text, codes, starts_with, ends_with, text_eq, is_member, replace,
}
use sentinai_project.Policy.{Severity, SemanticViolation}
use sentinai_project.Validator.Tree.{
  boolean, integer, Node, call, constant, Nodes, cons, Keywords, end, keyword, Entered, node,
  name_of,
}
use sentinai_project.Validator.Auth.{violation}

-- An entry of _DANGEROUS_CALLS.
pub record Danger : Type 0 where
  pub prefix : Text
  pub severity : Severity
  pub code : Text
  pub message : Text

abbrev danger : Text → Severity → Text → Text → Danger
danger prefix severity code message = record {
  prefix = prefix;
  severity = severity;
  code = code;
  message = message;
}

unfoldable pub dangerous_calls : List Danger
dangerous_calls =
    danger (codes "subprocess.call") Severity.critical (codes "PRIV001")
      (codes "subprocess.call() with shell=True allows arbitrary code execution")
    ∷ danger (codes "subprocess.run") Severity.high (codes "PRIV002")
        (codes "subprocess.run() — verify no user-controlled input reaches this call")
    ∷ danger (codes "subprocess.Popen") Severity.high (codes "PRIV003")
        (codes "subprocess.Popen() — verify no user-controlled input reaches this call")
    ∷ danger (codes "subprocess.check_output") Severity.high (codes "PRIV004")
        (codes "subprocess.check_output() — verify no user-controlled input reaches this call")
    ∷ danger (codes "os.system") Severity.critical (codes "PRIV005")
        (codes "os.system() executes shell commands — severe injection risk")
    ∷ danger (codes "os.popen") Severity.critical (codes "PRIV006")
        (codes "os.popen() executes shell commands — use subprocess instead")
    ∷ danger (codes "os.execv") Severity.critical (codes "PRIV007")
        (codes "os.execv() replaces the current process — extremely dangerous")
    ∷ danger (codes "os.execve") Severity.critical (codes "PRIV008")
        (codes "os.execve() replaces the current process — extremely dangerous")
    ∷ danger (codes "os.chmod") Severity.high (codes "PRIV009")
        (codes "os.chmod() — verify no world-writable bits (0o777) are set")
    ∷ danger (codes "os.chown") Severity.high (codes "PRIV010")
        (codes "os.chown() — changing file ownership may escalate privileges")
    ∷ danger (codes "os.setuid") Severity.critical (codes "PRIV011")
        (codes "os.setuid() changes process UID — privilege escalation risk")
    ∷ danger (codes "os.setgid") Severity.critical (codes "PRIV012")
        (codes "os.setgid() changes process GID — privilege escalation risk")
    ∷ danger (codes "eval") Severity.critical (codes "PRIV013")
        (codes "eval() executes arbitrary code — never pass user input")
    ∷ danger (codes "exec") Severity.critical (codes "PRIV014")
        (codes "exec() executes arbitrary code — never pass user input")
    ∷ danger (codes "compile") Severity.high (codes "PRIV015")
        (codes "compile() + exec pattern — verify source is trusted")
    ∷ danger (codes "__import__") Severity.high (codes "PRIV016")
        (codes "__import__() dynamic import — verify module name is not user-controlled")
    ∷ danger (codes "importlib.import_module") Severity.high (codes "PRIV017")
        (codes "importlib.import_module() — verify module name is not user-controlled")
    ∷ danger (codes "pickle.loads") Severity.critical (codes "PRIV018")
        (codes "pickle.loads() on untrusted data allows arbitrary code execution")
    ∷ danger (codes "pickle.load") Severity.critical (codes "PRIV019")
        (codes "pickle.load() on untrusted data allows arbitrary code execution")
    ∷ danger (codes "marshal.loads") Severity.critical (codes "PRIV020")
        (codes "marshal.loads() deserializes bytecode — only trust signed sources")
    ∷ danger (codes "yaml.load") Severity.critical (codes "PRIV021")
        (codes "yaml.load() without Loader=yaml.SafeLoader allows code execution")
    ∷ danger (codes "tempfile.mktemp") Severity.high (codes "PRIV022")
        (codes "tempfile.mktemp() is insecure (TOCTOU) — use mkstemp() or NamedTemporaryFile()")
    ∷ []

-- `s.split(".")[-1]` and `s.split(".")[0]`
abbrev pub has_dot : Text → Bool
has_dot [] = false
has_dot (c ∷ s) = c == b'.' || has_dot s

abbrev pub last_part : Text → Text
last_part [] = []
last_part (c ∷ s) =
    let rest = last_part s in if has_dot s then rest else if c == b'.' then s else c ∷ s

abbrev pub first_part : Text → Text
first_part [] = []
first_part (c ∷ s) = let rest = first_part s in if c == b'.' then [] else c ∷ rest

-- full_match or bare_match
unfoldable pub is_match : Text → Text → Bool
is_match prefix name =
    let bare = last_part prefix in
    text_eq name prefix
    || text_eq name bare
    || (ends_with (codes "." ++ bare) name
        && (not (has_dot prefix) || starts_with (first_part prefix) name))

abbrev subprocess_calls : List Text
subprocess_calls =
    codes "subprocess.run"
    ∷ codes "subprocess.Popen"
    ∷ codes "subprocess.call"
    ∷ codes "subprocess.check_output"
    ∷ []

pub is_true : Node → Bool
is_true (constant (boolean b)) = b
is_true _ = false

abbrev is_shell : Option Text → Bool
is_shell none = false
is_shell (some a) = text_eq a (codes "shell")

unfoldable pub has_shell : Keywords → Bool
unfolding is_true
has_shell end = false
has_shell (keyword k v ks) = (is_shell k && is_true v) || has_shell ks

-- What is added for the entry that matches.
unfoldable pub danger_violation : Danger → Keywords → SemanticViolation
unfolding has_shell
danger_violation d ks =
    if is_member d.prefix subprocess_calls && has_shell ks
    then violation d.code
        (replace (codes "— verify") (codes "with shell=True — arbitrary code execution") d.message)
        Severity.critical
    else violation d.code d.message d.severity

-- The loop over the entries, which ends at the first match.
unfoldable pub danger_flags : Text → Keywords → List Danger → List SemanticViolation
unfolding danger_violation is_match
danger_flags name ks [] = []
danger_flags name ks (d ∷ ds) =
    let rest = danger_flags name ks ds in
    if is_match d.prefix name then danger_violation d ks ∷ [] else rest

-- PRIV023: the second argument is an int with the bit 0o002. False and True have not got it.
pub is_world_writable : Nodes → Option ℕ
is_world_writable (cons _ (cons (constant (integer n)) _)) = if n / 2 % 2 == 1 then some n else none
is_world_writable _ = none

-- `f"{n:o}"`, on as many digits as the fuel: the digits of n are at most n + 1.
unfoldable pub octal_digits : ℕ → ℕ → Text → Text
octal_digits zero n digits = digits
octal_digits (suc fuel) n digits = elim (n / 8 == 0) [
  | true ↦ (48 + n % 8) ∷ digits
  | false ↦ octal_digits fuel (n / 8) ((48 + n % 8) ∷ digits)
]

pub chmod_violations : Option ℕ → List SemanticViolation
unfolding octal_digits
chmod_violations none = []
chmod_violations (some mode) =
    violation (codes "PRIV023")
      (codes "os.chmod() sets world-writable bit (mode=0o"
        ++ (octal_digits (mode + 1) mode [] ++ codes ")"))
      Severity.critical
    ∷ []

unfoldable pub chmod_flags : Text → Nodes → List SemanticViolation
unfolding is_world_writable chmod_violations
chmod_flags name as' =
    if text_eq name (codes "os.chmod") || text_eq name (codes "chmod")
    then chmod_violations (is_world_writable as')
    else []

unfoldable pub priv_flags : Entered → List SemanticViolation
priv_flags (node (call f as' ks)) =
    danger_flags (name_of f) ks dangerous_calls ++ chmod_flags (name_of f) as'
priv_flags _ = []
