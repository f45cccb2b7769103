-- ===== src/Validator/Flow.antt =====
-- What the taint rules follow: a name stays tainted, whatever is assigned to it later.
use sentinai_project.Common.{
  text_eq_refl, ◌≡◌, refl, sym, subst, arith, ◌⊎◌, inl, inr, true, List, [], ◌∷◌, ◌++◌, Bool-cases,
  Text, codes, is_member,
}
use sentinai_project.Policy.{Severity, SemanticViolation}
use sentinai_project.Validator.Tree.{
  Node, call, assign, name, other, Nodes, nil, cons, Keywords, end, Entered, node, key, name_of,
  visit, visit_all,
}
use sentinai_project.Validator.Auth.{violation}
use sentinai_project.Validator.Taint.{
  TaintState, is_sink, is_source_call, is_nonempty_text, add_targets, direct_flags, taint_step,
}
use sentinai_project.Validator.Reach.{
  visit-keeps, visit_all-keeps, SomewhereAll, visit_all-reaches, visit_all-part,
}
use sentinai_project.Validator.{run_taint}

-- `v` is in the list.
abbrev pub Has : SemanticViolation → List SemanticViolation → Type 0
Has v [] = ⊥
Has v (w ∷ ws) = (w ≡ v) ⊎ Has v ws

Has-left : (v : SemanticViolation) (vs ws : List SemanticViolation) → Has v vs → Has v (vs ++ ws)
Has-left v [] ws h = absurd h
Has-left v (w ∷ vs) ws (inl e) = inl e
Has-left v (w ∷ vs) ws (inr h) = inr (Has-left v vs ws h)

Has-right : (v : SemanticViolation) (vs ws : List SemanticViolation) → Has v ws → Has v (vs ++ ws)
Has-right v [] ws h = h
Has-right v (w ∷ vs) ws h = inr (Has-right v vs ws h)

add_targets-keeps :
    (x : Text) (ts : Nodes) (tainted : List Text)
    → is_member x tainted ≡ true
    → is_member x (add_targets ts tainted) ≡ true
unfolding add_targets
add_targets-keeps x nil tainted h = h
add_targets-keeps x (cons t ts) tainted h = elim (Bool-cases (is_nonempty_text (name_of t))) [
  | inl e ↦ rw e (add_targets-keeps x ts _ (ground (arith, h)))
  | inr e ↦ rw e (add_targets-keeps x ts _ h)
]

abbrev IsTainted : Text → TaintState → Type 0
IsTainted x st = is_member x st.tainted ≡ true

taint_step-keeps :
    (x : Text) (e : Entered) (st : TaintState) → IsTainted x st → IsTainted x (taint_step e st)
unfolding taint_step
taint_step-keeps x (node (assign ts v)) st h = elim (Bool-cases (is_source_call v)) [
  | inl e ↦ rw e (add_targets-keeps x ts st.tainted h)
  | inr e ↦ rw e h
]
taint_step-keeps x (node (call f as' ks)) st h = elim (Bool-cases (is_sink (name_of f))) [
  | inl e ↦ rw e h
  | inr e ↦ rw e h
]
taint_step-keeps x (node _) st h = h
taint_step-keeps x (key k v) st h = h

taint_step-Has :
    (v : SemanticViolation) (e : Entered) (st : TaintState)
    → Has v st.violations
    → Has v (taint_step e st).violations
unfolding taint_step
taint_step-Has v (node (assign ts w)) st h = elim (Bool-cases (is_source_call w)) [
  | inl e ↦ rw e h
  | inr e ↦ rw e h
]
taint_step-Has v (node (call f as' ks)) st h = elim (Bool-cases (is_sink (name_of f))) [
  | inl e ↦ rw e (Has-left v st.violations _ h)
  | inr e ↦ rw e h
]
taint_step-Has v (node _) st h = h
taint_step-Has v (key k w) st h = h

-- `x = source()` taints x, and a call of a sink with x gives the violation.
abbrev pub taint001 : Text → Text → SemanticViolation
taint001 x sink =
    violation (codes "TAINT001")
      (codes "Untrusted input '"
        ++ (x ++ (codes "' flows into sink '" ++ (sink ++ codes "()' — sanitize before use"))))
      Severity.high

module _ (x : Text) (ts : Nodes) (source : Node) (f : Node) (as' : Nodes) (ks : Keywords) where
  assigned :
      (st : TaintState)
      → is_source_call source ≡ true
      → is_nonempty_text x ≡ true
      → IsTainted x (taint_step (node (assign (cons (name x) ts) source)) st)
  unfolding taint_step add_targets name_of
  assigned st h n = rw h (rw n (add_targets-keeps x ts _ (ground (arith, text_eq_refl x))))

  -- The name stays tainted below the assignment.
  visit_assign :
      (st : TaintState)
      → is_source_call source ≡ true
      → is_nonempty_text x ≡ true
      → IsTainted x (visit taint_step (assign (cons (name x) ts) source) st)
  unfolding visit
  visit_assign st h n = visit-keeps taint_step (IsTainted x) (taint_step-keeps x) source _ (
      visit_all-keeps taint_step (IsTainted x) (taint_step-keeps x) (cons (name x) ts) _
        (assigned st h n))

  flagged :
      (tainted : List Text) (sink : Text)
      → is_nonempty_text x ≡ true
      → is_member x tainted ≡ true
      → Has (taint001 x sink) (direct_flags tainted sink (cons (name x) as'))
  unfolding direct_flags name_of
  flagged tainted sink n t = rw (n, t) (inl refl)

  used :
      (st : TaintState)
      → is_sink (name_of f) ≡ true
      → is_nonempty_text x ≡ true
      → IsTainted x st
      → Has
          (taint001 x (name_of f))
          (taint_step (node (call f (cons (name x) as') ks)) st).violations
  unfolding taint_step
  used st h n t = rw h (
      Has-right (taint001 x (name_of f)) st.violations _
        (Has-left (taint001 x (name_of f)) _ _ (flagged st.tainted (name_of f) n t)))

-- A call of the sink whose first argument is the name.
abbrev pub IsFirst : Text → Nodes → Type 0
IsFirst x nil = ⊥
IsFirst x (cons a as') = a ≡ name x

abbrev pub IsUse : Text → Text → Entered → Type 0
IsUse x sink (node (call f as' ks)) =
    (is_sink (name_of f) ≡ true) × (name_of f ≡ sink) × IsFirst x as'
IsUse x sink _ = ⊥

abbrev pub append : Nodes → Nodes → Nodes
append nil ms = ms
append (cons n ns) ms = cons n (append ns ms)

visit_all-append :
    (ns ms : Nodes) (st : TaintState)
    → visit_all taint_step (append ns ms) st ≡ visit_all taint_step ms (visit_all taint_step ns st)
unfolding visit
visit_all-append nil ms st = refl
visit_all-append (cons n ns) ms st = visit_all-append ns ms (visit taint_step n st)

-- A state in which the name is tainted.
record Tainted (x : Text) : Type 0 where
  state : TaintState
  tainted : IsTainted x state

module _ (x sink : Text) where
  step_tainted : Entered → Tainted x → Tainted x
  step_tainted e t = record {
    state = taint_step e t.state;
    tainted = taint_step-keeps x e t.state t.tainted;
  }

  IsFound : Tainted x → Type 0
  IsFound t = Has (taint001 x sink) t.state.violations

  use-IsFound :
      (e : Entered) (t : Tainted x)
      → is_nonempty_text x ≡ true
      → IsUse x sink e
      → IsFound (step_tainted e t)
  unfolding step_tainted IsFound
  use-IsFound (node (call f nil ks)) t n (k, s, o) = absurd o
  use-IsFound (node (call f (cons a as') ks)) t n (k, s, o) =
      subst
        (λ b. Has (taint001 x sink) (taint_step (node (call f (cons b as') ks)) t.state).violations)
        (sym o)
        (subst
          (λ y.
            Has (taint001 x y)
              (taint_step (node (call f (cons (name x) as') ks)) t.state).violations)
          s (used x nil (name x) f as' ks t.state k n t.tainted))
  use-IsFound _ t n h = absurd h

  -- Statements with such a call are flagged from a state in which the name is tainted.
  visit_all-Has :
      (later : Nodes) (st : TaintState)
      → is_nonempty_text x ≡ true
      → IsTainted x st
      → SomewhereAll (IsUse x sink) later
      → Has (taint001 x sink) (visit_all taint_step later st).violations
  unfolding step_tainted IsFound
  visit_all-Has later st n t u =
      let start : Tainted x = record { state = st; tainted = t } in
      subst (λ s. Has (taint001 x sink) s.violations)
        (visit_all-part (λ (t : Tainted x). t.state) taint_step step_tainted (λ e t. refl) later
          start)
        (visit_all-reaches step_tainted IsFound
          (λ e t h. taint_step-Has (taint001 x sink) e t.state h) (IsUse x sink)
          (λ e t p. use-IsFound e t n p) later start u)

-- If a statement of a module assigns a source's call to a name, as its first target, and in a
-- later statement, at any depth, the name is the first argument of a call of a sink, the taint
-- rules flag the name and the sink, whatever stands before, between and behind the two.
pub reassigned-tainted :
    (x sink : Text) (before ts : Nodes) (source : Node) (later : Nodes)
    → is_source_call source ≡ true
    → is_nonempty_text x ≡ true
    → SomewhereAll (IsUse x sink) later
    → Has
        (taint001 x sink)
        (run_taint (other (append before (cons (assign (cons (name x) ts) source) later))))
unfolding run_taint visit
reassigned-tainted x sink before ts source later h n u =
    subst (λ st. Has (taint001 x sink) st.violations)
      (sym (visit_all-append before (cons (assign (cons (name x) ts) source) later) _))
      (visit_all-Has x sink later _ n (visit_assign x ts source (name x) nil end _ h n) u)
