-- ===== src/Worker/Examples.antt =====
-- A queue of two events, one of them with a lease that has run out.
use sentinai_project.Common.{
  ◌+◌, String, none, some, Bool, false, List, [], ◌∷◌, ◌≡◌, refl, arith, codes, All, any_of, str_eq,
  eq_iff,
}
use sentinai_project.Ingest.{IngestedEvent, Source}
use sentinai_project.Incidents.Upsert.{IsUnique}
use sentinai_project.Worker.Select.{claimed_event}
use sentinai_project.Worker.{Db, Outcome, committed, analysis_failed, process, claim, run_once}
use sentinai_project.Worker.Counted.{counted, processed, waiting, save_event-counted_again}
use sentinai_project.Worker.Leases.{HasKey, claim-exclusive, run_once-counted}

abbrev shop : Source
shop = record {
  id = "s1";
  account_id = "a";
  name = codes "shop";
  key_prefix = codes "snl_00000000";
  key_hash = codes "h";
  created_at = 0;
  created_by = none;
  revoked_at = none;
  last_used_at = none;
  last_event_at = none;
}

abbrev crash : IngestedEvent
crash = record {
  id = "r1";
  account_id = "a";
  source_id = "s1";
  event_id = "e1";
  occurred_at = 5;
  received_at = 6;
  level = "error";
  message = codes "boom";
  exception_type = some (codes "KeyError");
  stacktrace = none;
  environment = some (codes "prod");
  release = none;
  request_id = none;
  fingerprint = "f1";
  incident_pk = none;
  processed_at = none;
  claimed_at = none;
  attempts = 0;
  last_error = none;
}

abbrev again : IngestedEvent
again = record crash { id = "r2"; event_id = "e2"; claimed_at = some 1; attempts = 1 }

abbrev queue : Db
queue = record { incidents = []; events = crash ∷ again ∷ [] }

abbrev by_id : String → String → Bool
by_id a b = str_eq a "r1"

abbrev unlocked : String → Bool
unlocked id = false

abbrev outcomes : List Outcome
outcomes =
    analysis_failed "i1" 40 (some (codes "analysis failed: TimeoutError: "))
    ∷ committed "i2" 41
    ∷ []

key : HasKey queue.events
key = record { once = λ id. ground (arith, eq_iff "r1" id, eq_iff "r2" id, eq_iff "r1" "r2") }

no_incidents : IsUnique []
no_incidents = record { once = λ account fp. omega arith }

claim-exclusive_example :
    let (batch, db') = claim by_id unlocked 1 10 5 30 (shop ∷ []) queue in
    let (batch', _) = claim by_id unlocked 5 10 5 35 (shop ∷ []) db' in
    All (λ c. any_of (λ d. str_eq d.id c.id) batch ≡ false) batch'
claim-exclusive_example =
    claim-exclusive by_id 10 5 (shop ∷ []) unlocked unlocked 1 5 30 35 queue (omega arith)

run_once-counted_example :
    let (_, db') = run_once by_id unlocked 5 10 5 30 (shop ∷ []) outcomes queue in
    IsUnique db'.incidents × (counted db' + processed queue ≡ counted queue + processed db')
run_once-counted_example =
    run_once-counted by_id 10 5 (shop ∷ []) unlocked 5 30 outcomes queue key no_incidents

abbrev done : Db
done = record { incidents = []; events = record crash { processed_at = some 20 } ∷ [] }

save_event-counted_again_example :
    (counted (process (claimed_event crash (codes "shop")) (committed "i1" 40) done)
      ≡ counted done + 1)
    × (processed (process (claimed_event crash (codes "shop")) (committed "i1" 40) done)
        ≡ processed done)
unfolding claimed_event waiting
save_event-counted_again_example =
    save_event-counted_again (claimed_event crash (codes "shop")) "i1" 40 done no_incidents refl
