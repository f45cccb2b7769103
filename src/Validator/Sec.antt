-- ===== src/Validator/Sec.antt =====
-- The SEC rule set: secrets and cryptographic misuse. The order of the violations for a weak algorithm
-- is that of the set's elements, which Python leaves open; here it is the order of the source.
use sentinai_project.Common.{
  zero, Bool, true, false, Option, none, some, List, [], ◌∷◌, ◌++◌, ◌&&◌, ◌||◌, not, if◌then◌else◌,
  any_of, map, Text, codes, contains, ends_with, text_eq, is_member, lower, replace,
}
use sentinai_project.Policy.{Severity, SemanticViolation}
use sentinai_project.Validator.Tree.{
  Constant, str, boolean, integer, float, bytes, none_value, Node, call, assign, constant, Nodes,
  nil, cons, Keywords, end, keyword, Entered, node, key, name_of, str_value,
}
use sentinai_project.Validator.Auth.{violation, flag, is_credential, arg_text}

abbrev weak_algos : List Text
weak_algos =
    codes "md5" ∷ codes "sha1" ∷ codes "sha-1" ∷ codes "des" ∷ codes "rc4" ∷ codes "rc2" ∷ []

-- `s.replace("-", "")`
abbrev undashed : Text → Text
undashed s = replace (codes "-") [] s

abbrev weak_message : Text → SemanticViolation
weak_message algo =
    violation (codes "SEC001")
      (codes "Weak hash algorithm '" ++ (algo ++ codes "' — use SHA-256 or stronger")) Severity.high

pub weak_args : Nodes → List SemanticViolation
weak_args nil = []
weak_args (cons n ns) =
    let rest = weak_args ns in
    elim (str_value n) [
      | none ↦ rest
      | some algo ↦
          flag (is_member (undashed (lower algo)) (map undashed weak_algos)) (weak_message algo)
          ++ rest
    ]

pub weak_suffixes : Text → List Text → List SemanticViolation
weak_suffixes name [] = []
weak_suffixes name (algo ∷ algos) =
    flag (ends_with (undashed algo) name) (weak_message algo) ++ weak_suffixes name algos

pub weak_flags : Text → Nodes → List SemanticViolation
unfolding weak_args weak_suffixes
weak_flags name as' =
    if contains (codes "hashlib") name || is_member name (codes "md5" ∷ codes "sha1" ∷ [])
    then weak_args as' ++ weak_suffixes name weak_algos
    else []

abbrev random_calls : List Text
random_calls =
    codes "random.random"
    ∷ codes "random.randint"
    ∷ codes "random.choice"
    ∷ codes "random.randrange"
    ∷ codes "random.uniform"
    ∷ []

abbrev request_calls : List Text
request_calls =
    codes "requests.get"
    ∷ codes "requests.post"
    ∷ codes "requests.put"
    ∷ codes "requests.delete"
    ∷ codes "requests.request"
    ∷ codes "requests.session"
    ∷ []

-- `not value`
abbrev is_falsy : Constant → Bool
is_falsy (str []) = true
is_falsy (boolean b) = not b
is_falsy (integer zero) = true
is_falsy (float is_zero) = is_zero
is_falsy (bytes is_empty) = is_empty
is_falsy none_value = true
is_falsy _ = false

is_falsy_node : Node → Bool
is_falsy_node (constant c) = is_falsy c
is_falsy_node _ = false

abbrev is_verify : Option Text → Bool
is_verify none = false
is_verify (some a) = text_eq a (codes "verify")

pub verify_flags : Keywords → List SemanticViolation
unfolding is_falsy_node
verify_flags end = []
verify_flags (keyword k v ks) =
    flag (is_verify k && is_falsy_node v) (
      violation (codes "SEC003")
        (codes "SSL verification disabled (verify=False) — MITM attack risk") Severity.critical)
    ++ verify_flags ks

abbrev pub secret_names : List Text
secret_names =
    codes "password"
    ∷ codes "passwd"
    ∷ codes "pwd"
    ∷ codes "secret"
    ∷ codes "secret_key"
    ∷ codes "api_key"
    ∷ codes "apikey"
    ∷ codes "token"
    ∷ codes "auth_token"
    ∷ codes "access_token"
    ∷ codes "private_key"
    ∷ codes "signing_key"
    ∷ []

abbrev names_secret : Text → Bool
names_secret s = any_of (λ kw. contains kw (lower s)) secret_names

pub target_flags : Nodes → List SemanticViolation
target_flags nil = []
target_flags (cons t ts) =
    flag (names_secret (name_of t)) (
      violation (codes "SEC004")
        (codes "Hardcoded secret assigned to '"
          ++ (name_of t ++ codes "' — use env vars or a vault"))
        Severity.critical)
    ++ target_flags ts

-- `node.arg and any(...)`: no secret name stands in an empty text.
abbrev key_names_secret : Option Text → Bool
key_names_secret none = false
key_names_secret (some a) = names_secret a

unfoldable pub sec_flags : Entered → List SemanticViolation
unfolding weak_flags verify_flags target_flags
sec_flags (node (call f as' ks)) =
    let name = lower (name_of f) in
    weak_flags name as'
    ++ (flag (is_member name random_calls) (
          violation (codes "SEC002")
            (codes "'" ++ (name ++ codes "' is not cryptographically secure — use secrets module"))
            Severity.high)
        ++ (if is_member name request_calls then verify_flags ks else []))
sec_flags (node (assign ts v)) = if is_credential (str_value v) then target_flags ts else []
sec_flags (key k v) = flag (key_names_secret k && is_credential (str_value v)) (
    violation (codes "SEC005")
      (codes "Hardcoded secret in keyword argument '" ++ (arg_text k ++ codes "'"))
      Severity.critical)
sec_flags _ = []
