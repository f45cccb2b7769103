-- ===== src/Validator/Reach.antt =====
-- A visitor enters every node of a tree, and what it keeps at each it keeps in all.
use sentinai_project.Common.{◌⊎◌, inl, inr, ◌≡◌, refl, ap, ◌∙◌}
use sentinai_project.Validator.Tree.{
  Node, call, compare, function_def, class_def, assign, attribute, name, constant, joined_str,
  bin_op, other, Nodes, nil, cons, Keywords, end, keyword, Entered, node, key, visit, visit_all,
  visit_keywords,
}

-- `P` holds of some node or keyword of a tree, at any depth.
module _ (P : Entered → Type 0) where
  unfoldable mutual
    pub Somewhere : Node → Type 0
    Somewhere (call f as' ks) =
        P (node (call f as' ks)) ⊎ (Somewhere f ⊎ (SomewhereAll as' ⊎ SomewhereKey ks))
    Somewhere (compare l cs) = P (node (compare l cs)) ⊎ (Somewhere l ⊎ SomewhereAll cs)
    Somewhere (function_def n as' b ds r) =
        P (node (function_def n as' b ds r))
        ⊎ (SomewhereAll as' ⊎ (SomewhereAll b ⊎ (SomewhereAll ds ⊎ SomewhereAll r)))
    Somewhere (class_def bs ks r) =
        P (node (class_def bs ks r)) ⊎ (SomewhereAll bs ⊎ (SomewhereKey ks ⊎ SomewhereAll r))
    Somewhere (assign ts v) = P (node (assign ts v)) ⊎ (SomewhereAll ts ⊎ Somewhere v)
    Somewhere (attribute v a) = P (node (attribute v a)) ⊎ Somewhere v
    Somewhere (name n) = P (node (name n))
    Somewhere (constant c) = P (node (constant c))
    Somewhere (joined_str vs) = P (node (joined_str vs)) ⊎ SomewhereAll vs
    Somewhere (bin_op l r) = P (node (bin_op l r)) ⊎ (Somewhere l ⊎ Somewhere r)
    Somewhere (other cs) = P (node (other cs)) ⊎ SomewhereAll cs

    pub SomewhereAll : Nodes → Type 0
    SomewhereAll nil = ⊥
    SomewhereAll (cons n ns) = Somewhere n ⊎ SomewhereAll ns

    pub SomewhereKey : Keywords → Type 0
    SomewhereKey end = ⊥
    SomewhereKey (keyword k v ks) = P (key k v) ⊎ (Somewhere v ⊎ SomewhereKey ks)

module _ {S : Type 0} (enter : Entered → S → S) (Q : S → Type 0)
    (keep : (e : Entered) (s : S) → Q s → Q (enter e s)) where
  mutual
    unfolding visit

    pub visit-keeps : (n : Node) (s : S) → Q s → Q (visit enter n s)
    visit-keeps (call f as' ks) s q =
        visit_keywords-keeps ks _ (visit_all-keeps as' _ (visit-keeps f _ (keep _ s q)))
    visit-keeps (compare l cs) s q = visit_all-keeps cs _ (visit-keeps l _ (keep _ s q))
    visit-keeps (function_def n as' b ds r) s q =
        visit_all-keeps r _
          (visit_all-keeps ds _ (visit_all-keeps b _ (visit_all-keeps as' _ (keep _ s q))))
    visit-keeps (class_def bs ks r) s q =
        visit_all-keeps r _ (visit_keywords-keeps ks _ (visit_all-keeps bs _ (keep _ s q)))
    visit-keeps (assign ts v) s q = visit-keeps v _ (visit_all-keeps ts _ (keep _ s q))
    visit-keeps (attribute v a) s q = visit-keeps v _ (keep _ s q)
    visit-keeps (name n) s q = keep _ s q
    visit-keeps (constant c) s q = keep _ s q
    visit-keeps (joined_str vs) s q = visit_all-keeps vs _ (keep _ s q)
    visit-keeps (bin_op l r) s q = visit-keeps r _ (visit-keeps l _ (keep _ s q))
    visit-keeps (other cs) s q = visit_all-keeps cs _ (keep _ s q)

    pub visit_all-keeps : (ns : Nodes) (s : S) → Q s → Q (visit_all enter ns s)
    visit_all-keeps nil s q = q
    visit_all-keeps (cons n ns) s q = visit_all-keeps ns _ (visit-keeps n s q)

    pub visit_keywords-keeps : (ks : Keywords) (s : S) → Q s → Q (visit_keywords enter ks s)
    visit_keywords-keeps end s q = q
    visit_keywords-keeps (keyword k v ks) s q =
        visit_keywords-keeps ks _ (visit-keeps v _ (keep _ s q))

  module _ (P : Entered → Type 0) (reach : (e : Entered) (s : S) → P e → Q (enter e s)) where
    mutual
      unfolding visit Somewhere

      pub visit-reaches : (n : Node) (s : S) → Somewhere P n → Q (visit enter n s)
      visit-reaches (call f as' ks) s (inl p) =
          visit_keywords-keeps ks _ (visit_all-keeps as' _ (visit-keeps f _ (reach _ s p)))
      visit-reaches (call f as' ks) s (inr (inl p)) =
          visit_keywords-keeps ks _ (visit_all-keeps as' _ (visit-reaches f _ p))
      visit-reaches (call f as' ks) s (inr (inr (inl p))) =
          visit_keywords-keeps ks _ (visit_all-reaches as' _ p)
      visit-reaches (call f as' ks) s (inr (inr (inr p))) = visit_keywords-reaches ks _ p
      visit-reaches (compare l cs) s (inl p) = visit_all-keeps cs _ (visit-keeps l _ (reach _ s p))
      visit-reaches (compare l cs) s (inr (inl p)) = visit_all-keeps cs _ (visit-reaches l _ p)
      visit-reaches (compare l cs) s (inr (inr p)) = visit_all-reaches cs _ p
      visit-reaches (function_def n as' b ds r) s (inl p) =
          visit_all-keeps r _
            (visit_all-keeps ds _ (visit_all-keeps b _ (visit_all-keeps as' _ (reach _ s p))))
      visit-reaches (function_def n as' b ds r) s (inr (inl p)) =
          visit_all-keeps r _
            (visit_all-keeps ds _ (visit_all-keeps b _ (visit_all-reaches as' _ p)))
      visit-reaches (function_def n as' b ds r) s (inr (inr (inl p))) =
          visit_all-keeps r _ (visit_all-keeps ds _ (visit_all-reaches b _ p))
      visit-reaches (function_def n as' b ds r) s (inr (inr (inr (inl p)))) =
          visit_all-keeps r _ (visit_all-reaches ds _ p)
      visit-reaches (function_def n as' b ds r) s (inr (inr (inr (inr p)))) =
          visit_all-reaches r _ p
      visit-reaches (class_def bs ks r) s (inl p) =
          visit_all-keeps r _ (visit_keywords-keeps ks _ (visit_all-keeps bs _ (reach _ s p)))
      visit-reaches (class_def bs ks r) s (inr (inl p)) =
          visit_all-keeps r _ (visit_keywords-keeps ks _ (visit_all-reaches bs _ p))
      visit-reaches (class_def bs ks r) s (inr (inr (inl p))) =
          visit_all-keeps r _ (visit_keywords-reaches ks _ p)
      visit-reaches (class_def bs ks r) s (inr (inr (inr p))) = visit_all-reaches r _ p
      visit-reaches (assign ts v) s (inl p) = visit-keeps v _ (visit_all-keeps ts _ (reach _ s p))
      visit-reaches (assign ts v) s (inr (inl p)) = visit-keeps v _ (visit_all-reaches ts _ p)
      visit-reaches (assign ts v) s (inr (inr p)) = visit-reaches v _ p
      visit-reaches (attribute v a) s (inl p) = visit-keeps v _ (reach _ s p)
      visit-reaches (attribute v a) s (inr p) = visit-reaches v _ p
      visit-reaches (name n) s p = reach _ s p
      visit-reaches (constant c) s p = reach _ s p
      visit-reaches (joined_str vs) s (inl p) = visit_all-keeps vs _ (reach _ s p)
      visit-reaches (joined_str vs) s (inr p) = visit_all-reaches vs _ p
      visit-reaches (bin_op l r) s (inl p) = visit-keeps r _ (visit-keeps l _ (reach _ s p))
      visit-reaches (bin_op l r) s (inr (inl p)) = visit-keeps r _ (visit-reaches l _ p)
      visit-reaches (bin_op l r) s (inr (inr p)) = visit-reaches r _ p
      visit-reaches (other cs) s (inl p) = visit_all-keeps cs _ (reach _ s p)
      visit-reaches (other cs) s (inr p) = visit_all-reaches cs _ p

      pub visit_all-reaches : (ns : Nodes) (s : S) → SomewhereAll P ns → Q (visit_all enter ns s)
      visit_all-reaches nil s p = absurd p
      visit_all-reaches (cons n ns) s (inl p) = visit_all-keeps ns _ (visit-reaches n s p)
      visit_all-reaches (cons n ns) s (inr p) = visit_all-reaches ns _ p

      visit_keywords-reaches :
          (ks : Keywords) (s : S) → SomewhereKey P ks → Q (visit_keywords enter ks s)
      visit_keywords-reaches end s p = absurd p
      visit_keywords-reaches (keyword k v ks) s (inl p) =
          visit_keywords-keeps ks _ (visit-keeps v _ (reach _ s p))
      visit_keywords-reaches (keyword k v ks) s (inr (inl p)) =
          visit_keywords-keeps ks _ (visit-reaches v _ p)
      visit_keywords-reaches (keyword k v ks) s (inr (inr p)) = visit_keywords-reaches ks _ p

-- A visitor whose state has more, but enters in the same way, ends in the same way.
module _ {S T : Type 0} (part : T → S) (enter : Entered → S → S) (enter' : Entered → T → T)
    (same : (e : Entered) (t : T) → part (enter' e t) ≡ enter e (part t)) where
  mutual
    unfolding visit

    pub visit-part : (n : Node) (t : T) → part (visit enter' n t) ≡ visit enter n (part t)
    visit-part (call f as' ks) t =
        visit_keywords-part ks _
        ∙ ap (visit_keywords enter ks) (
            visit_all-part as' _
            ∙ ap (visit_all enter as') (visit-part f _ ∙ ap (visit enter f) (same _ t)))
    visit-part (compare l cs) t =
        visit_all-part cs _
        ∙ ap (visit_all enter cs) (visit-part l _ ∙ ap (visit enter l) (same _ t))
    visit-part (function_def n as' b ds r) t =
        visit_all-part r _
        ∙ ap (visit_all enter r) (
            visit_all-part ds _
            ∙ ap (visit_all enter ds) (
                visit_all-part b _
                ∙ ap (visit_all enter b)
                    (visit_all-part as' _ ∙ ap (visit_all enter as') (same _ t))))
    visit-part (class_def bs ks r) t =
        visit_all-part r _
        ∙ ap (visit_all enter r) (
            visit_keywords-part ks _
            ∙ ap (visit_keywords enter ks)
                (visit_all-part bs _ ∙ ap (visit_all enter bs) (same _ t)))
    visit-part (assign ts v) t =
        visit-part v _
        ∙ ap (visit enter v) (visit_all-part ts _ ∙ ap (visit_all enter ts) (same _ t))
    visit-part (attribute v a) t = visit-part v _ ∙ ap (visit enter v) (same _ t)
    visit-part (name n) t = same _ t
    visit-part (constant c) t = same _ t
    visit-part (joined_str vs) t = visit_all-part vs _ ∙ ap (visit_all enter vs) (same _ t)
    visit-part (bin_op l r) t =
        visit-part r _ ∙ ap (visit enter r) (visit-part l _ ∙ ap (visit enter l) (same _ t))
    visit-part (other cs) t = visit_all-part cs _ ∙ ap (visit_all enter cs) (same _ t)

    pub visit_all-part :
        (ns : Nodes) (t : T) → part (visit_all enter' ns t) ≡ visit_all enter ns (part t)
    visit_all-part nil t = refl
    visit_all-part (cons n ns) t = visit_all-part ns _ ∙ ap (visit_all enter ns) (visit-part n t)

    visit_keywords-part :
        (ks : Keywords) (t : T)
        → part (visit_keywords enter' ks t) ≡ visit_keywords enter ks (part t)
    visit_keywords-part end t = refl
    visit_keywords-part (keyword k v ks) t =
        visit_keywords-part ks _
        ∙ ap (visit_keywords enter ks) (visit-part v _ ∙ ap (visit enter v) (same _ t))
