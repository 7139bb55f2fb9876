-- ===== src/Relay/Lookup/Laws.antt =====
-- relay/server.ts: what both stores of publications promise.
use governance_seatbelt.Prelude.{
  String, Option, some, false, string_eq, Result, ok, throw, [], ◌∷◌, ◌≡◌, ◌≤◌, refl, arith, length,
  ◌∙◌, ap,
}
use governance_seatbelt.Text.{is_blank}
use governance_seatbelt.Json.{Json, str}
use governance_seatbelt.Json.Read.{read_optional_string}
use governance_seatbelt.Relay.Bounded.Laws.{lookup-set_bounded_same, length-set_bounded}
use governance_seatbelt.Relay.Redis.{Database, run_upstash_command}
use governance_seatbelt.Relay.Config.{Texts}
use governance_seatbelt.Relay.Lookup.{
  PublishLookupRecord, PublishLookupStore, create_in_memory_publish_lookup_store, to_json,
  normalize_publish_id, parse_publish_lookup_record, create_upstash_publish_lookup_store,
  to_publish_lookup_key, lookup_limit, done, stored_record,
}

-- A record as the relay makes them: a normal id, and texts that say something.
pub record IsComplete (texts : Texts) (r : PublishLookupRecord) : Type 0 where
  pub id_kept : normalize_publish_id texts r.publish_id ≡ some r.publish_id
  pub id_given : is_blank r.publish_id ≡ false
  pub artifact_given : is_blank r.artifact_url ≡ false
  pub deployment_given : is_blank r.deployment_url ≡ false
  pub metadata_given : is_blank r.metadata_url ≡ false
  pub hash_given : is_blank r.artifact_hash ≡ false
  pub at_given : is_blank r.published_at ≡ false

parse_publish_lookup_record-to_json :
    (texts : Texts) (r : PublishLookupRecord)
    → IsComplete texts r
    → parse_publish_lookup_record texts (to_json r) ≡ some r
unfolding parse_publish_lookup_record to_json read_optional_string normalize_publish_id
parse_publish_lookup_record-to_json texts r h =
    rw
      (h.id_given, h.artifact_given, h.deployment_given, h.metadata_given, h.hash_given, h.at_given)
      (simp h.id_kept refl)

-- What a store promises of some records, from any of its states: one that is written without an error is
-- read back by its id, and the state stays one of its states.
pub record IsLookupStore {S : Type 0} (IsRecord : PublishLookupRecord → Type 0)
    (IsState : S → Type 0) (store : PublishLookupStore S) : Type 0 where
  pub read_back :
      (r : PublishLookupRecord) (s : S)
      → IsState s
      → IsRecord r
      → (store.write r s).0 ≡ ok tt
      → (store.read r.publish_id (store.write r s).1).0 ≡ ok (some r)
  pub write_state : (r : PublishLookupRecord) (s : S) → IsState s → IsState (store.write r s).1
  pub read_state : (id : String) (s : S) → IsState s → IsState (store.read id s).1

-- The map in memory is such a store for every record, and holds at most 10000 of them.
pub create_in_memory_publish_lookup_store-IsLookupStore :
    IsLookupStore
      (λ r. Unit)
      (λ records. length records ≤ lookup_limit)
      create_in_memory_publish_lookup_store
unfolding create_in_memory_publish_lookup_store
create_in_memory_publish_lookup_store-IsLookupStore = record {
  read_back = λ r records few complete written.
      ap ok (lookup-set_bounded_same lookup_limit r.publish_id r records (omega arith) few);
  write_state = λ r records few. length-set_bounded lookup_limit r.publish_id r records few;
  read_state = λ id records few. few;
}

-- A database that gives back under a key what was last set there.
pub record KeepsValues {S : Type 0} (database : Database S) : Type 0 where
  pub get_set :
      (key value : String) (s : S) {result : Json}
      → (run_upstash_command database ("SET" ∷ key ∷ value ∷ []) s).0 ≡ ok result
      → (run_upstash_command database
          ("GET" ∷ key ∷ [])
          (run_upstash_command database ("SET" ∷ key ∷ value ∷ []) s).1).0
        ≡ ok (str value)

done-ok :
    (texts : Texts) {S : Type 0} (database : Database S) (stringify : Json → String)
    (parse : String → Option Json) (answer : Result Json)
    → done texts database stringify parse answer ≡ ok tt
    → (result : Json) × (answer ≡ ok result)
done-ok texts database stringify parse (throw e) h = cc
done-ok texts database stringify parse (ok result) h = (result, refl)

stored :
    (texts : Texts) {S : Type 0} (database : Database S) (stringify : Json → String)
    (parse : String → Option Json) (text : String) (value : Json)
    → parse text ≡ some value
    → stored_record texts database stringify parse (ok (str text))
      ≡ ok (parse_publish_lookup_record texts value)
stored texts database stringify parse text value h = ground (arith, h)

-- A complete record whose text JSON reads back.
abbrev pub IsReadable :
    Texts → (Json → String) → (String → Option Json) → PublishLookupRecord → Type 0
IsReadable texts stringify parse r =
    IsComplete texts r × (parse (stringify (to_json r)) ≡ some (to_json r))

-- Over a database that gives back what was last set under a key, the Upstash store gives back every record
-- that it wrote without an error, if the record has a normal id and no blank text and JSON reads its
-- text back.
pub create_upstash_publish_lookup_store-IsLookupStore :
    {S : Type 0} (texts : Texts) (database : Database S) (stringify : Json → String)
    (parse : String → Option Json)
    → KeepsValues database
    → IsLookupStore
        (IsReadable texts stringify parse)
        (λ s. Unit)
        (create_upstash_publish_lookup_store texts database stringify parse)
unfolding create_upstash_publish_lookup_store
create_upstash_publish_lookup_store-IsLookupStore texts database stringify parse keeps = record {
  read_back = λ r s _ (complete, parsed) written.
      let (result, wrote) = done-ok texts database stringify parse _ written in
      rw (keeps.get_set (to_publish_lookup_key r.publish_id) (stringify (to_json r)) s wrote) (
        stored texts database stringify parse (stringify (to_json r)) (to_json r) parsed
        ∙ ap ok (parse_publish_lookup_record-to_json texts r complete));
  write_state = λ r s _. tt;
  read_state = λ id s _. tt;
}
