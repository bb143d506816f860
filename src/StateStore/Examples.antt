-- ===== src/StateStore/Examples.antt =====
-- A store that keeps ended executions for two seconds.
use runcor.Common.{ℕ, ◌≡◌, some, none, List, [], ◌∷◌, codes, text_eq}
use runcor.Common.Dict
use runcor.Execution.{complete, Execution}
use runcor.StateStore.{new_store, get_execution, set_execution}
use runcor.StateStore.Retention.{Call, gets, gets_by_key, sets, calls, retained, read_retained}

abbrev done_brief : Execution ℕ
done_brief = record {
  id = codes "e1";
  flow_name = codes "brief";
  idempotency_key = codes "k1";
  state = complete;
  input = 1;
  result = some 2;
  error = none;
  retry_count = 0;
  timestamps = record { queued_at = 10; started = some 20; completed = some 30; transitions = [] };
  wait_context = none;
  resume_data = none;
  replay_of = none;
  user_id = none;
}

abbrev usage : List (Call ℕ)
usage = sets done_brief ∷ gets (codes "e1") 1000 ∷ gets_by_key (codes "k1") 1500 ∷ []

read_retained_example :
    ((get_execution (codes "e1") 2031 (calls usage (new_store 2))).0
      ≡ retained
          (calls usage (new_store 2)).retention_period_ms
          2031
          (Dict.get (codes "e1") (calls usage (new_store 2)).executions))
    × ((get_execution (codes "e1") 2031 (set_execution done_brief (calls usage (new_store 2)))).0
        ≡ retained (calls usage (new_store 2)).retention_period_ms 2031 (some done_brief))
read_retained_example = read_retained 2 usage (codes "e1") 2031 done_brief
