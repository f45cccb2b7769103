-- ===== src/Injection/Fields.antt =====
-- The result for several fields, against the results of the single ones.
use sentinai_project.Common.{
  ◌≡◌, refl, sym, ap, ◌∙◌, Option, none, some, is_some, List, [], ◌∷◌, ◌++◌, append_assoc,
  append-nil, Text, if◌then◌else◌,
}
use sentinai_project.Injection.{
  Pattern, Detection, scan, scan_loop, scan_fields, first_of, is_nonempty,
}

module _ (patterns : List Pattern) where
  -- The detections of all fields that are not empty, one field behind the other.
  unfoldable pub all_detections : List (Text × Text) → List Detection
  all_detections [] = []
  all_detections ((field, []) ∷ fields) = all_detections fields
  all_detections ((field, c ∷ text) ∷ fields) =
      (scan patterns (c ∷ text) field).detections ++ all_detections fields

  -- The first field that is not empty and has a detection.
  pub first_flagged : List (Text × Text) → Option Text
  first_flagged [] = none
  first_flagged ((field, []) ∷ fields) = first_flagged fields
  first_flagged ((field, c ∷ text) ∷ fields) =
      let rest = first_flagged fields in
      if is_nonempty (scan patterns (c ∷ text) field).detections then some field else rest

  abbrev merged : Option Text → Option Text → Option Text
  merged none later = later
  merged (some f) later = some f

  merged-first :
      (flagged : Option Text) (field : Text) (later : Option Text)
      → merged (first_of flagged field) later ≡ merged flagged (some field)
  merged-first none field later = refl
  merged-first (some f) field later = refl

  -- What the loop makes of fields, behind detections and a flagged field.
  abbrev IsMerged : List (Text × Text) → List Detection → Option Text → Type 0
  IsMerged fields ds flagged =
      ((scan_loop patterns fields ds flagged).0 ≡ ds ++ all_detections fields)
      × ((scan_loop patterns fields ds flagged).1 ≡ merged flagged (first_flagged fields))

  step-all :
      (fields : List (Text × Text)) (field : Text) (found ds : List Detection)
      (flagged : Option Text)
      → ((es : List Detection) (f : Option Text) → IsMerged fields es f)
      → let b = is_nonempty found in
        let out =
          scan_loop patterns fields
            (if b then ds ++ found else ds)
            (if b then first_of flagged field else flagged) in
        (out.0 ≡ ds ++ (found ++ all_detections fields))
        × (out.1 ≡ merged flagged (if b then some field else first_flagged fields))
  step-all fields field [] ds flagged k = k ds flagged
  step-all fields field (d ∷ found) ds flagged k =
      let (detections, first) = k (ds ++ d ∷ found) (first_of flagged field) in
      (
        detections ∙ append_assoc ds (d ∷ found) (all_detections fields),
        first ∙ merged-first flagged field (first_flagged fields),
      )

  scan_loop-all :
      (fields : List (Text × Text)) (ds : List Detection) (flagged : Option Text)
      → IsMerged fields ds flagged
  unfolding scan_loop scan all_detections first_flagged
  scan_loop-all [] ds none = (sym (append-nil ds), refl)
  scan_loop-all [] ds (some f) = (sym (append-nil ds), refl)
  scan_loop-all ((field, []) ∷ fields) ds flagged = scan_loop-all fields ds flagged
  scan_loop-all ((field, c ∷ text) ∷ fields) ds flagged =
      step-all fields field (scan patterns (c ∷ text) field).detections ds flagged
        (scan_loop-all fields)

  flagged-found :
      (fields : List (Text × Text))
      → is_some (first_flagged fields) ≡ is_nonempty (all_detections fields)
  unfolding all_detections first_flagged
  flagged-found [] = refl
  flagged-found ((field, []) ∷ fields) = flagged-found fields
  flagged-found ((field, c ∷ text) ∷ fields) =
      found_here (scan patterns (c ∷ text) field).detections (flagged-found fields)
    where
      found_here :
          (ds : List Detection)
          → is_some (first_flagged fields) ≡ is_nonempty (all_detections fields)
          → is_some (if is_nonempty ds then some field else first_flagged fields)
            ≡ is_nonempty (ds ++ all_detections fields)
      found_here [] h = h
      found_here (d ∷ ds) h = refl

  -- The detections of several fields are those of the single ones in their order, without the
  -- empty fields; the flagged field is the first one that has any, and there is an injection
  -- exactly if there is a flagged field.
  pub scan_fields_lem :
      (fields : List (Text × Text))
      → ((scan_fields patterns fields).detections ≡ all_detections fields)
        × ((scan_fields patterns fields).flagged_field ≡ first_flagged fields)
        × ((scan_fields patterns fields).is_injection ≡ is_some (first_flagged fields))
  unfolding scan_fields
  scan_fields_lem fields =
      let (detections, first) = scan_loop-all fields [] none in
      (detections, first, ap is_nonempty detections ∙ sym (flagged-found fields))
