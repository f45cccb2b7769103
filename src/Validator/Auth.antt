-- ===== src/Validator/Auth.antt =====
-- The shared helpers of the rules and the AUTH rule set.
use sentinai_project.Common.{
  zero, Bool, true, false, Option, none, some, List, [], ◌∷◌, ◌++◌, ◌&&◌, ◌||◌, not, ◌==◌,
  if◌then◌else◌, ltb, length, any_of, Text, codes, contains, lower, upper, is_member, is_word_char,
}
use sentinai_project.Policy.{Severity, SemanticViolation}
use sentinai_project.Validator.Tree.{
  Constant, boolean, integer, float, none_value, Node, call, compare, function_def, constant, Nodes,
  nil, cons, Keywords, end, keyword, Entered, node, name_of, str_value,
}

abbrev pub violation : Text → Text → Severity → SemanticViolation
violation code message severity = record { code = code; message = message; severity = severity }

-- `if test: self._add(...)`
abbrev pub flag : Bool → SemanticViolation → List SemanticViolation
flag test v = if test then v ∷ [] else []

abbrev placeholders : List Text
placeholders =
    codes "your-secret"
    ∷ codes "your_secret"
    ∷ codes "changeme"
    ∷ codes "change_me"
    ∷ codes "placeholder"
    ∷ codes "example"
    ∷ codes "test"
    ∷ codes "dummy"
    ∷ codes "password123"
    ∷ codes "secret123"
    ∷ codes "todo"
    ∷ codes "fixme"
    ∷ []

abbrev sql_keywords : List Text
sql_keywords =
    codes "SELECT "
    ∷ codes "INSERT "
    ∷ codes "UPDATE "
    ∷ codes "DELETE "
    ∷ codes "WHERE "
    ∷ codes "FROM "
    ∷ []

-- re.search(r":\w+", s)
has_named_parameter : Text → Bool
has_named_parameter [] = false
has_named_parameter (c ∷ []) = false
has_named_parameter (c ∷ d ∷ s) = (c == b':' && is_word_char d) || has_named_parameter (d ∷ s)

-- re.search(r"(%s|%d|\?|:\w+)", s)
pub has_sql_parameter : Text → Bool
unfolding has_named_parameter
has_sql_parameter s =
    contains (codes "%s") s
    || contains (codes "%d") s
    || contains (codes "?") s
    || has_named_parameter s

pub has_special : Text → Bool
has_special s = any_of (λ c. contains (c ∷ []) (codes "0123456789!@#$^&*-_=+/\\")) s

pub looks_like_credential : Text → Bool
unfolding has_sql_parameter has_special
looks_like_credential s =
    if ltb (length s) 8
    then false
    else if is_member (lower s) placeholders || any_of (λ p. contains p (lower s)) placeholders
    then false
    else if any_of (λ kw. contains kw (upper s)) sql_keywords
    then false
    else if has_sql_parameter s
    then false
    else has_special s

-- `s and _looks_like_hardcoded_credential(s)` for an optional string.
pub is_credential : Option Text → Bool
unfolding looks_like_credential
is_credential none = false
is_credential (some s) = looks_like_credential s

abbrev pub bypass_kwargs : List Text
bypass_kwargs =
    codes "skip_auth"
    ∷ codes "bypass_auth"
    ∷ codes "disable_auth"
    ∷ codes "no_auth"
    ∷ codes "unauthenticated"
    ∷ codes "anonymous"
    ∷ []

-- `value not in (False, 0, None)`, where False == 0.
abbrev is_enabling : Constant → Bool
is_enabling (boolean b) = b
is_enabling (integer zero) = false
is_enabling (float is_zero) = not is_zero
is_enabling none_value = false
is_enabling _ = true

is_enabling_node : Node → Bool
is_enabling_node (constant c) = is_enabling c
is_enabling_node _ = false

-- `kw.arg in names`
abbrev pub arg_in : List Text → Option Text → Bool
arg_in names none = false
arg_in names (some a) = is_member a names

abbrev pub arg_text : Option Text → Text
arg_text none = codes "None"
arg_text (some a) = a

unfoldable pub bypass_flags : Keywords → List SemanticViolation
unfolding is_enabling_node
bypass_flags end = []
bypass_flags (keyword k v ks) =
    flag (arg_in bypass_kwargs k && is_enabling_node v) (
      violation (codes "AUTH001")
        (codes "Potentially disabling auth check via kwarg '" ++ (arg_text k ++ codes "=True'"))
        Severity.critical)
    ++ bypass_flags ks

unfoldable pub credential_flags : SemanticViolation → Nodes → List SemanticViolation
credential_flags v nil = []
credential_flags v (cons n ns) = flag (is_credential (str_value n)) v ++ credential_flags v ns

abbrev protected_names : List Text
protected_names =
    codes "admin" ∷ codes "dashboard" ∷ codes "settings" ∷ codes "profile" ∷ codes "account" ∷ []

-- _check_decorator_removal: without decorators no name is among the auth decorators.
decorator_flags : Text → Nodes → List SemanticViolation
decorator_flags n nil = flag (any_of (λ kw. contains kw (lower n)) protected_names) (
    violation (codes "AUTH004")
      (codes "Protected-looking endpoint '" ++ (n ++ codes "' has no auth decorator"))
      Severity.high)
decorator_flags n (cons _ _) = []

unfoldable pub auth_flags : Entered → List SemanticViolation
unfolding bypass_flags credential_flags decorator_flags
auth_flags (node (call f as' ks)) =
    bypass_flags ks
    ++ credential_flags
        (violation (codes "AUTH002")
          (codes "Hardcoded credential string passed to '" ++ (name_of f ++ codes "()'"))
          Severity.critical)
        as'
auth_flags (node (compare l cs)) =
    credential_flags
      (violation (codes "AUTH003")
        (codes "Hardcoded credential used in comparison — timing-safe compare required")
        Severity.high)
      cs
auth_flags (node (function_def n as' b ds r)) = decorator_flags n ds
auth_flags _ = []
