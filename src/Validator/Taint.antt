-- ===== src/Validator/Taint.antt =====
-- The TAINT rule set: names that hold untrusted data, and the sinks that they reach.
use sentinai_project.Common.{
  Bool, true, false, Option, none, some, List, [], ◌∷◌, ◌++◌, ◌&&◌, ◌||◌, if◌then◌else◌, any_of,
  Text, codes, ends_with, is_member,
}
use sentinai_project.Policy.{Severity, SemanticViolation}
use sentinai_project.Validator.Tree.{
  Node, call, assign, joined_str, bin_op, Nodes, nil, cons, Entered, node, name_of, extract_names,
}
use sentinai_project.Validator.Auth.{violation, flag}
use sentinai_project.Validator.Priv.{last_part}

abbrev pub taint_sources : List Text
taint_sources =
    codes "request.args.get"
    ∷ codes "request.form.get"
    ∷ codes "request.json"
    ∷ codes "request.get_json"
    ∷ codes "request.data"
    ∷ codes "request.values.get"
    ∷ codes "request.cookies.get"
    ∷ codes "request.headers.get"
    ∷ codes "request.GET.get"
    ∷ codes "request.POST.get"
    ∷ codes "Body"
    ∷ codes "Query"
    ∷ codes "Path"
    ∷ codes "Header"
    ∷ codes "Cookie"
    ∷ codes "input"
    ∷ codes "os.environ.get"
    ∷ codes "os.getenv"
    ∷ codes "sys.argv"
    ∷ []

abbrev pub taint_sinks : List Text
taint_sinks =
    codes "execute"
    ∷ codes "cursor.execute"
    ∷ codes "db.execute"
    ∷ codes "session.execute"
    ∷ codes "connection.execute"
    ∷ codes "conn.execute"
    ∷ codes "os.system"
    ∷ codes "subprocess.call"
    ∷ codes "subprocess.run"
    ∷ codes "subprocess.Popen"
    ∷ codes "subprocess.check_output"
    ∷ codes "os.popen"
    ∷ codes "render_template_string"
    ∷ codes "jinja2.Template"
    ∷ codes "Template"
    ∷ codes "Markup"
    ∷ codes "eval"
    ∷ codes "exec"
    ∷ codes "open"
    ∷ codes "Path"
    ∷ codes "redirect"
    ∷ []

pub record TaintState : Type 0 where
  pub tainted : List Text
  pub violations : List SemanticViolation

-- A source by its name, or by the last part of one, whatever stands before it.
unfoldable pub is_source : Text → Bool
is_source name =
    is_member name taint_sources || any_of (λ s. ends_with (last_part s) name) taint_sources

unfoldable pub is_sink : Text → Bool
is_sink name =
    is_member name taint_sinks
    || any_of (λ s. ends_with (codes "." ++ last_part s) name) taint_sinks

abbrev pub is_nonempty_text : Text → Bool
is_nonempty_text [] = false
is_nonempty_text (_ ∷ _) = true

-- The targets that have a name are added to the set.
unfoldable pub add_targets : Nodes → List Text → List Text
add_targets nil tainted = tainted
add_targets (cons t ts) tainted =
    add_targets ts (if is_nonempty_text (name_of t) then name_of t ∷ tainted else tainted)

unfoldable pub call_name : Node → Option Text
call_name (call f as' ks) = some (name_of f)
call_name _ = none

unfoldable pub is_source_call : Node → Bool
unfolding call_name is_source
is_source_call n = elim (call_name n) [ some name ↦ is_source name | none ↦ false ]

unfoldable pub direct_flags : List Text → Text → Nodes → List SemanticViolation
direct_flags tainted sink nil = []
direct_flags tainted sink (cons n ns) =
    flag (is_nonempty_text (name_of n) && is_member (name_of n) tainted) (
      violation (codes "TAINT001")
        (codes "Untrusted input '"
          ++ (name_of n
              ++ (codes "' flows into sink '" ++ (sink ++ codes "()' — sanitize before use"))))
        Severity.high)
    ++ direct_flags tainted sink ns

abbrev is_formatting : Node → Bool
is_formatting (joined_str _) = true
is_formatting (bin_op _ _) = true
is_formatting _ = false

unfoldable pub name_flags : List Text → Text → List Text → List SemanticViolation
name_flags tainted sink [] = []
name_flags tainted sink (n ∷ ns) =
    flag (is_member n tainted) (
      violation (codes "TAINT002")
        (codes "Untrusted input '"
          ++ (n
              ++ (codes "' used in string formatting passed to '"
                  ++ (sink ++ codes "()' — injection risk"))))
        Severity.critical)
    ++ name_flags tainted sink ns

unfoldable pub formatted_flags : List Text → Text → Nodes → List SemanticViolation
unfolding name_flags
formatted_flags tainted sink nil = []
formatted_flags tainted sink (cons n ns) =
    (if is_formatting n then name_flags tainted sink (extract_names n) else [])
    ++ formatted_flags tainted sink ns

unfoldable pub taint_step : Entered → TaintState → TaintState
unfolding is_source_call add_targets is_sink direct_flags formatted_flags
taint_step (node (assign ts v)) st =
    if is_source_call v then record st { tainted = add_targets ts st.tainted } else st
taint_step (node (call f as' ks)) st =
    let sink = name_of f in
    if is_sink sink
    then record st {
      violations =
          st.violations
          ++ (direct_flags st.tainted sink as' ++ formatted_flags st.tainted sink as');
    }
    else st
taint_step _ st = st
