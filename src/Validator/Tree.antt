-- ===== src/Validator/Tree.antt =====
-- Python's syntax trees as far as the rules look at them, and the order in which ast.NodeVisitor and
-- ast.walk go through them. `other` is every further kind of node, with its children in their order;
-- nodes without children, such as operators, are left out.
use sentinai_project.Common.{ℕ, Bool, Option, none, some, List, [], ◌∷◌, ◌++◌, Text, codes}

-- The value of an ast.Constant.
pub data Constant : Type 0 where
  str : Text → Constant
  boolean : Bool → Constant
  integer : ℕ → Constant
  float : Bool → Constant
  bytes : Bool → Constant
  none_value ellipsis : Constant

mutual
  -- `call` has func, args and keywords, `compare` left and comparators, `function_def` is a FunctionDef
  -- or an AsyncFunctionDef with its name, arguments, body, decorators and returns, `class_def` has
  -- bases, keywords and the rest. A float or bytes is known by whether it is zero or empty.
  pub data Node : Type 0 where
    call : Node → Nodes → Keywords → Node
    compare : Node → Nodes → Node
    function_def : Text → Nodes → Nodes → Nodes → Nodes → Node
    class_def : Nodes → Keywords → Nodes → Node
    assign : Nodes → Node → Node
    attribute : Node → Text → Node
    name : Text → Node
    constant : Constant → Node
    joined_str : Nodes → Node
    bin_op : Node → Node → Node
    other : Nodes → Node

  pub data Nodes : Type 0 where
    nil : Nodes
    cons : Node → Nodes → Nodes

  -- ast.keyword nodes: the name, which `**kwargs` has none of, and the value.
  pub data Keywords : Type 0 where
    end : Keywords
    keyword : Option Text → Node → Keywords → Keywords

-- What a visitor enters.
pub data Entered : Type 0 where
  node : Node → Entered
  key : Option Text → Node → Entered

-- ast.NodeVisitor: each node is entered, and generic_visit then goes through its children.
module _ {S : Type 0} (enter : Entered → S → S) where
  unfoldable mutual
    pub visit : Node → S → S
    visit (call f as' ks) s =
        visit_keywords ks (visit_all as' (visit f (enter (node (call f as' ks)) s)))
    visit (compare l cs) s = visit_all cs (visit l (enter (node (compare l cs)) s))
    visit (function_def n as' b ds r) s =
        visit_all r
          (visit_all ds (visit_all b (visit_all as' (enter (node (function_def n as' b ds r)) s))))
    visit (class_def bs ks r) s =
        visit_all r (visit_keywords ks (visit_all bs (enter (node (class_def bs ks r)) s)))
    visit (assign ts v) s = visit v (visit_all ts (enter (node (assign ts v)) s))
    visit (attribute v a) s = visit v (enter (node (attribute v a)) s)
    visit (name n) s = enter (node (name n)) s
    visit (constant c) s = enter (node (constant c)) s
    visit (joined_str vs) s = visit_all vs (enter (node (joined_str vs)) s)
    visit (bin_op l r) s = visit r (visit l (enter (node (bin_op l r)) s))
    visit (other cs) s = visit_all cs (enter (node (other cs)) s)

    pub visit_all : Nodes → S → S
    visit_all nil s = s
    visit_all (cons n ns) s = visit_all ns (visit n s)

    pub visit_keywords : Keywords → S → S
    visit_keywords end s = s
    visit_keywords (keyword k v ks) s = visit_keywords ks (visit v (enter (key k v) s))

-- The levels of a tree: `merge` joins those of two siblings.
abbrev merge : List (List Text) → List (List Text) → List (List Text)
merge [] ys = ys
merge (x ∷ xs) [] = x ∷ xs
merge (x ∷ xs) (y ∷ ys) = (x ++ y) ∷ merge xs ys

abbrev concat : List (List Text) → List Text
concat [] = []
concat (x ∷ xs) = x ++ concat xs

-- The names on each level below a node.
mutual
  pub name_levels : Node → List (List Text)
  name_levels (call f as' ks) = [] ∷ merge (name_levels f) (merge (all_levels as') (key_levels ks))
  name_levels (compare l cs) = [] ∷ merge (name_levels l) (all_levels cs)
  name_levels (function_def n as' b ds r) =
      [] ∷ merge (all_levels as') (merge (all_levels b) (merge (all_levels ds) (all_levels r)))
  name_levels (class_def bs ks r) =
      [] ∷ merge (all_levels bs) (merge (key_levels ks) (all_levels r))
  name_levels (assign ts v) = [] ∷ merge (all_levels ts) (name_levels v)
  name_levels (attribute v a) = [] ∷ name_levels v
  name_levels (name n) = (n ∷ []) ∷ []
  name_levels (constant c) = [] ∷ []
  name_levels (joined_str vs) = [] ∷ all_levels vs
  name_levels (bin_op l r) = [] ∷ merge (name_levels l) (name_levels r)
  name_levels (other cs) = [] ∷ all_levels cs

  pub all_levels : Nodes → List (List Text)
  all_levels nil = []
  all_levels (cons n ns) = merge (name_levels n) (all_levels ns)

  pub key_levels : Keywords → List (List Text)
  key_levels end = []
  key_levels (keyword k v ks) = merge ([] ∷ name_levels v) (key_levels ks)

-- _extract_names: ast.walk goes level by level.
pub extract_names : Node → List Text
unfolding name_levels
extract_names n = concat (name_levels n)

-- _name: the dotted name of a call's target.
unfoldable pub name_of : Node → Text
name_of (attribute v a) = name_of v ++ (codes "." ++ a)
name_of (name n) = n
name_of _ = []

-- _str_value
pub str_value : Node → Option Text
str_value (constant (str s)) = some s
str_value _ = none
