-- ===== src/Validator/Examples.antt =====
-- A patch that calls os.system, and a name that is cleaned before its use.
use sentinai_project.Common.{◌≡◌, ◌≢◌, refl, Text, codes, ok, inl, inr}
use sentinai_project.Policy.{no_policy, allow, check}
use sentinai_project.Validator.Tree.{
  Node, Nodes, function_def, constant, str, call, assign, attribute, name, other, nil, cons, end,
  name_of,
}
use sentinai_project.Validator.Taint.{is_source_call, is_source, call_name, is_sink}
use sentinai_project.Validator.Reach.{Somewhere}
use sentinai_project.Validator.Gate.{critical_call-ne-allow}
use sentinai_project.Validator.Flow.{Has, taint001, append, reassigned-tainted}
use sentinai_project.Validator.{
  SemanticValidationResult, extract_added_lines, added_lines, source_of, validate, run_taint,
}

abbrev patch : Text
patch = codes "@@ -1 +1 @@\n-x = 1\n+os.system(cmd)\r\n+y\n"

added_of_patch : extract_added_lines patch ≡ codes "os.system(cmd)\ny"
unfolding extract_added_lines added_lines
added_of_patch = refl

abbrev os_system : Node
os_system =
    call (attribute (name (codes "os")) (codes "system")) (cons (name (codes "cmd")) nil) end

abbrev tree : Node
tree = other (cons (other (cons os_system nil)) nil)

critical_call-ne-allow_example :
    (r : SemanticValidationResult) × (validate (λ _. ok tree) patch ≡ ok r)
    × ((check no_policy patch (codes "a.py") 1 r.violations).decision ≢ allow)
unfolding source_of extract_added_lines added_lines Somewhere name_of
critical_call-ne-allow_example =
    critical_call-ne-allow no_policy (λ _. ok tree) patch (codes "a.py") 1 tree refl refl refl
      (inr (inl (inr (inl (inl refl)))))

abbrev cleaned : Node
cleaned =
    assign (cons (name (codes "x")) nil)
      (call (name (codes "sanitize")) (cons (name (codes "x")) nil) end)

-- `x = sanitize(x)`, and then `return db.execute(x)` in a function's body.
abbrev later : Nodes
later = cons cleaned (
    cons
      (function_def (codes "f") nil
        (cons
          (other (
            cons
              (call (attribute (name (codes "db")) (codes "execute")) (cons (name (codes "x")) nil)
                end)
              nil))
          nil)
        nil nil)
      nil)

abbrev a_comment : Nodes
a_comment = cons (other (cons (constant (str (codes "text"))) nil)) nil

reassigned-tainted_example : Has (taint001 (codes "x") (codes "db.execute")) (
    run_taint (
      other (
        append a_comment (
          cons
            (assign (cons (name (codes "x")) nil) (call (name (codes "input")) nil end))
            later))))
unfolding is_source_call call_name is_source is_sink name_of Somewhere
reassigned-tainted_example =
    reassigned-tainted (codes "x") (codes "db.execute") a_comment nil
      (call (name (codes "input")) nil end) later refl refl
      (inr (inl (inr (inr (inl (inl (inr (inl (inl (refl, refl, refl))))))))))
