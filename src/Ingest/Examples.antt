-- ===== src/Ingest/Examples.antt =====
-- A batch with a repeated event.
use sentinai_project.Common.{◌+◌, String, none, some, List, [], ◌∷◌, ◌≡◌, codes, length}
use sentinai_project.Ingest.{NewEvent, Source, store_events}
use sentinai_project.Ingest.Stored.{store_events_counts, store_events-again}

abbrev pub shop : Source
shop = record {
  id = "s1";
  account_id = "a";
  name = codes "shop";
  key_prefix = codes "snl_00000000";
  key_hash = codes "h";
  created_at = 0;
  created_by = none;
  revoked_at = none;
  last_used_at = none;
  last_event_at = none;
}

abbrev pub crash : NewEvent
crash = record {
  event_id = "e1";
  occurred_at = 5;
  level = "error";
  message = codes "boom";
  exception_type = some (codes "KeyError");
  stacktrace = none;
  environment = some (codes "prod");
  release = none;
  request_id = none;
  fingerprint = "f1";
}

abbrev events : List (NewEvent × String)
events = (crash, "r1") ∷ (crash, "r2") ∷ (record crash { event_id = "e2" }, "r3") ∷ []

store_events_counts_example :
    let (b, _) = store_events shop 7 events [] (shop ∷ []) in
    (b.stored + b.duplicates ≡ 3) × (length b.table ≡ 0 + b.stored)
store_events_counts_example = store_events_counts shop 7 events [] (shop ∷ [])

store_events-again_example :
    let (b, sources) = store_events shop 7 events [] (shop ∷ []) in
    store_events shop 9 events b.table sources
    ≡ (record { table = b.table; stored = 0; duplicates = 3 }, sources)
store_events-again_example = store_events-again shop 7 9 events [] (shop ∷ [])
