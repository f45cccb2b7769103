-- ===== src/Validator.antt =====
-- PatchSemanticValidator of src/services/patch_semantic_validator.py. What ast.parse makes of a source
-- that textwrap.dedent has shifted is an argument: a tree, a syntax error, or another exception.
pub mod Tree
pub mod Auth
pub mod Priv
pub mod Sec
pub mod Taint
pub mod Reach
pub mod Gate
pub mod Flow
pub mod Numerals
mod Examples
use sentinai_project.Common.{
  ℕ, Bool, true, false, Option, none, some, List, [], ◌∷◌, ◌++◌, ◌||◌, if◌then◌else◌, any_of, take,
  Text, codes, starts_with, split_lines, join, is_blank, Result, ok, err, drop,
}
use sentinai_project.Policy.{SemanticViolation}
use sentinai_project.Validator.Tree.{Node, Entered, visit}
use sentinai_project.Validator.Auth.{auth_flags}
use sentinai_project.Validator.Priv.{priv_flags}
use sentinai_project.Validator.Sec.{sec_flags}
use sentinai_project.Validator.Taint.{TaintState, taint_step}

-- The line and the message of a SyntaxError.
pub record SyntaxError : Type 0 where
  pub lineno : ℕ
  pub msg : Text

-- What leaves ast.parse: a SyntaxError, or an exception that validate does not catch, as ValueError or
-- RecursionError.
pub data ParseError : Type 0 where
  syntax : SyntaxError → ParseError
  uncaught : Text → ParseError

pub record SemanticValidationResult : Type 0 where
  pub violations : List SemanticViolation
  pub parse_error : Option SyntaxError

-- A rule without a state of its own: what it flags at a node goes to the end of its violations.
abbrev pub add_flags :
    (Entered → List SemanticViolation) → Entered → List SemanticViolation → List SemanticViolation
add_flags flags e vs = vs ++ flags e

unfoldable pub run_rule : (Entered → List SemanticViolation) → Node → List SemanticViolation
run_rule flags tree = visit (add_flags flags) tree []

unfoldable pub run_taint : Node → List SemanticViolation
run_taint tree = (visit taint_step tree (record { tainted = []; violations = [] })).violations

-- The rule sets in their order.
unfoldable pub run_rules : Node → List SemanticViolation
unfolding run_rule run_taint
run_rules tree =
    run_rule auth_flags tree
    ++ (run_rule priv_flags tree ++ (run_rule sec_flags tree ++ run_taint tree))

-- The lines that a diff adds, without their `+`.
unfoldable pub added_lines : List Text → List Text
added_lines [] = []
added_lines (line ∷ lines) =
    let rest = added_lines lines in
    if starts_with (codes "+++") line
    then rest
    else if starts_with (codes "+") line
    then drop 1 line ∷ rest
    else rest

unfoldable pub extract_added_lines : Text → Text
unfolding added_lines
extract_added_lines patch = join (codes "\n") (added_lines (split_lines patch))

abbrev is_header : Text → Bool
is_header line =
    starts_with (codes "---") line
    || starts_with (codes "+++") line
    || starts_with (codes "@@") line

unfoldable pub source_of : Text → Text
unfolding extract_added_lines
source_of patch =
    if any_of is_header (take 10 (split_lines patch)) then extract_added_lines patch else patch

abbrev no_findings : SemanticValidationResult
no_findings = record { violations = []; parse_error = none }

unfoldable pub parsed : Result ParseError Node → Result Text SemanticValidationResult
unfolding run_rules
parsed (ok tree) = ok (record { violations = run_rules tree; parse_error = none })
parsed (err (syntax e)) = ok (record { violations = []; parse_error = some e })
parsed (err (uncaught exc)) = err exc

-- validate, or the exception that leaves it.
unfoldable pub validate :
    (Text → Result ParseError Node) → Text → Result Text SemanticValidationResult
unfolding parsed source_of
validate parse patch =
    if is_blank patch
    then ok no_findings
    else if is_blank (source_of patch)
    then ok no_findings
    else parsed (parse (source_of patch))
