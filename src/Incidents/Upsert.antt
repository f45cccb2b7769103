-- ===== src/Incidents/Upsert.antt =====
-- What an upsert does to the table, whatever the first query saw.
use sentinai_project.Common.{
  ℕ, ◌+◌, ◌≤◌, String, Option, none, some, true, false, List, [], ◌∷◌, ◌++◌, ◌≡◌, refl, arith,
  str_eq, eq_iff, is_none, count_where, count_where-append, count_where-none, count_where-some,
  count_where-update_where, sum_of, sum_of-append, sum_of-update_where, sum_of-update_where_suc,
  map_some, ap, ◌∙◌, inl, inr, Bool-cases, Option-cases,
}
use sentinai_project.Events.{LogIncident}
use sentinai_project.Incidents.{
  Incident, is_incident, find_incident, count_row, reopen_row, count_repeat, new_row,
  insert_or_count, upsert_seen, upsert_incident,
}
use sentinai_project.Incidents.Counts.{
  after_upsert, repeat_row, find-count_repeat, find-count_repeat_other, find-insert,
  find-insert_other, is_incident-count_row, is_incident-reopen_row,
}

-- A row that the first query saw is still there when the writes happen: no code deletes incidents.
pub record IsKept (account fp : String) (seen t : List Incident) : Type 0 where
  pub kept :
      (r : Incident)
      → find_incident account fp seen ≡ some r
      → (r' : Incident) × (find_incident account fp t ≡ some r') × (r'.id ≡ r.id)

module _ (candidate account : String) (i : LogIncident) (seen t : List Incident) where
  abbrev pub before : Option Incident
  before = find_incident account i.incident_id t

  upsert-none :
      IsKept account i.incident_id seen t
      → before ≡ none
      → upsert_incident candidate account i seen t
        ≡ (t ++ new_row candidate account i ∷ [], (candidate, true))
  unfolding upsert_incident upsert_seen insert_or_count
  upsert-none k h = elim (Option-cases (find_incident account i.incident_id seen)) [
    | inl e ↦ rw (e, upsert_seen) (rw (h, insert_or_count))
    | inr (r, e) ↦ let (r', found, same) = k.kept r e in cc
  ]

  upsert-some :
      {r : Incident}
      → IsKept account i.incident_id seen t
      → before ≡ some r
      → upsert_incident candidate account i seen t
        ≡ (count_repeat account i.incident_id i.detected_at_utc t, (r.id, false))
  unfolding upsert_incident upsert_seen insert_or_count
  upsert-some {r} k h = elim (Option-cases (find_incident account i.incident_id seen)) [
    | inl e ↦ rw (e, upsert_seen) (rw (h, insert_or_count))
    | inr (s, e) ↦
        let (r', found, same) = k.kept s e in let ids : s.id ≡ r.id = cc in rw (e, upsert_seen) (cc)
  ]

new_row-key :
    (candidate account a fp : String) (i : LogIncident)
    → is_incident a fp (new_row candidate account i) ≡ true
    → (account ≡ a) × (i.incident_id ≡ fp)
unfolding new_row
new_row-key candidate account a fp i h = ground (arith, eq_iff account a, eq_iff i.incident_id fp)

count-reopen_row : (at : ℕ) (r : Incident) → (reopen_row at r).occurrence_count ≡ r.occurrence_count
unfolding reopen_row
count-reopen_row at r = ground arith

count-count_row :
    (at : ℕ) (r : Incident) → (count_row at r).occurrence_count ≡ r.occurrence_count + 1
unfolding count_row
count-count_row at r = refl

-- No two rows have the same account and fingerprint: the table's unique constraint.
pub record IsUnique (t : List Incident) : Type 0 where
  pub once : (account fp : String) → count_where (is_incident account fp) t ≤ 1

module _ (candidate account : String) (i : LogIncident) (seen t : List Incident) where
  -- If a row seen by the first query is still in the table, the upsert ends with the new row or
  -- the counted and reopened one under the incident's fingerprint, returns that row's id and
  -- whether it made the row, and changes what is found under no other fingerprint of the account,
  -- whatever the first query saw.
  pub upsert_incident_lem :
      IsKept account i.incident_id seen t
      → let (t', (id, is_new)) = upsert_incident candidate account i seen t in
        let found = find_incident account i.incident_id t in
        (find_incident account i.incident_id t' ≡ some (after_upsert candidate account i found))
        × (id ≡ (after_upsert candidate account i found).id)
        × (is_new ≡ is_none found)
        × ((fp : String)
            → str_eq i.incident_id fp ≡ false
            → find_incident account fp t' ≡ find_incident account fp t)
  unfolding after_upsert
  upsert_incident_lem k = elim (Option-cases (find_incident account i.incident_id t)) [
    | inl e ↦ rw (upsert-none candidate account i seen t k e) (
        rw (e, after_upsert)
          (
            find-insert account candidate i t e,
            unfold new_row in refl,
            refl,
            λ fp n. find-insert_other account candidate fp i t n,
          ))
    | inr (r, e) ↦ rw (upsert-some candidate account i seen t k e) (
        rw (e, after_upsert)
          (
            find-count_repeat account i.incident_id i.detected_at_utc t
                ∙ ap (map_some (repeat_row i.detected_at_utc)) e,
            unfold reopen_row count_row in ground arith,
            refl,
            λ fp n. find-count_repeat_other account i.incident_id fp i.detected_at_utc t n,
          ))
  ]

  -- If the incidents are unique and a row seen by the first query is still there, they are unique
  -- after an upsert.
  pub upsert_incident-IsUnique :
      IsKept account i.incident_id seen t
      → IsUnique t
      → IsUnique (upsert_incident candidate account i seen t).0
  unfolding count_repeat find_incident
  upsert_incident-IsUnique k u = elim (Option-cases (find_incident account i.incident_id t)) [
    | inl e ↦ rw (upsert-none candidate account i seen t k e) (record {
      once = λ a fp.
          rw (count_where-append (is_incident a fp) t (new_row candidate account i ∷ []))
            (one_new e a fp);
    })
    | inr (r, e) ↦
        rw (upsert-some candidate account i seen t k e)
          (record { once = λ a fp. rw (kept_count a fp) (u.once a fp) })
  ]
    where
      one_new :
          find_incident account i.incident_id t ≡ none
          → (a fp : String)
          → count_where (is_incident a fp) t
              + count_where (is_incident a fp) (new_row candidate account i ∷ [])
            ≤ 1
      one_new e a fp = elim (Bool-cases (is_incident a fp (new_row candidate account i))) [
        | inl b ↦
            let (same_account, same_fp) = new_row-key candidate account a fp i b in
            let absent : count_where (is_incident a fp) t ≡ 0 =
              rw (← same_account, ← same_fp)
                (count_where-none (is_incident account i.incident_id) t e) in
            rw (b, absent) (omega arith)
        | inr b ↦ rw b (omega (arith, u.once a fp))
      ]

      kept_count :
          (a fp : String)
          → count_where (is_incident a fp) (count_repeat account i.incident_id i.detected_at_utc t)
            ≡ count_where (is_incident a fp) t
      kept_count a fp =
          count_where-update_where (is_incident a fp) _ (reopen_row i.detected_at_utc) _
            (λ x. is_incident-reopen_row a fp i.detected_at_utc x)
          ∙ count_where-update_where (is_incident a fp) _ (count_row i.detected_at_utc) t
              (λ x. is_incident-count_row a fp i.detected_at_utc x)

  -- If the incidents are unique and a row seen by the first query is still there, an upsert raises
  -- the total of the occurrence counts by exactly 1.
  pub upsert_incident-total :
      IsKept account i.incident_id seen t
      → IsUnique t
      → sum_of (λ r. r.occurrence_count) (upsert_incident candidate account i seen t).0
        ≡ sum_of (λ r. r.occurrence_count) t + 1
  unfolding count_repeat find_incident
  upsert_incident-total k u = elim (Option-cases (find_incident account i.incident_id t)) [
    | inl e ↦
        rw (upsert-none candidate account i seen t k e)
          (sum_of-append (λ (r : Incident). r.occurrence_count) t _ ∙ unfold new_row in omega arith)
    | inr (r, e) ↦ rw (upsert-some candidate account i seen t k e) (
        sum_of-update_where (λ (r : Incident). r.occurrence_count) _ (reopen_row i.detected_at_utc)
          _ (count-reopen_row i.detected_at_utc)
        ∙ sum_of-update_where_suc (λ (r : Incident). r.occurrence_count) _
            (count_row i.detected_at_utc) t (count-count_row i.detected_at_utc)
        ∙ omega (
          arith,
          u.once account i.incident_id,
          count_where-some (is_incident account i.incident_id) t e,
        ))
  ]
