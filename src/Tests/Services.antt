-- ===== src/Tests/Services.antt =====
-- The service, the store and the client of raft/part5kv at concrete inputs.
use go_distributed_system.Base.{
  String, insert, lookup, ℕ, pos, ◌≡◌, ◌≢◌, refl, inl, true, false, some, List, [], ◌∷◌, ◌==◌,
  string_eq, if◌then◌else◌, arith, nat_beq,
}
use go_distributed_system.Kv.Api.{
  Command, put_response, ok, failed_commit, not_leader, zero_command, command_put,
}
use go_distributed_system.Kv.Store.{DataStore, get, cas}
use go_distributed_system.Kv.Store.Laws.{get-cas}
use go_distributed_system.Kv.Service.{
  is_repeat, update, KvService, Commit, run_updater, apply_command, execute, finish_request,
}
use go_distributed_system.Kv.Service.Dedup.{SameState, retries_ignored}
use go_distributed_system.Kv.Service.Replies.{repeat_answered}
use go_distributed_system.Kv.Client.{KvClient, Attempt, answered, success, send}
use go_distributed_system.Kv.Client.Rotation.{leader_found}
use go_distributed_system.Tests.Clusters.{from_some}

-- Client 5 puts "x", in its first and in its second request, through service 1.
abbrev put_x : Command
put_x = record zero_command {
  kind = command_put;
  key = "x";
  value = "one";
  service_id = pos 1;
  client_id = pos 5;
  request_id = pos 1;
}

abbrev put_more : Command
put_more = record put_x { value = "two"; request_id = pos 2 }

abbrev first_commit : Commit
first_commit = record { command = put_x; index = pos 0 }

abbrev second_commit : Commit
second_commit = record { command = put_more; index = pos 1 }

abbrev service : KvService
service = record {
  id = pos 1;
  commit_subs = (pos 0, 3) ∷ [];
  ds = record { values = [] };
  last_request_id_per_client = [];
}

abbrev after_one : KvService × List (ℕ × Command)
after_one = from_some (service, []) (run_updater (first_commit ∷ []) service)

abbrev after_two : KvService × List (ℕ × Command)
after_two = from_some (service, []) (run_updater (second_commit ∷ []) after_one.0)

retries_ignored_example :
    (kvs : KvService) × (sent : List (ℕ × Command)) × (run_updater (first_commit ∷ []) after_two.0
      ≡ some (kvs, sent))
    × SameState kvs after_two.0
unfolding run_updater update apply_command is_repeat lookup execute insert
retries_ignored_example =
    retries_ignored (first_commit ∷ []) (second_commit ∷ []) service {kvs1 = after_one.0}
      {kvs2 = after_two.0} {sent1 = after_one.1} {sent2 = after_two.1} refl refl

abbrev written : DataStore
written = record { values = ("x", "one") ∷ [] }

repeat_answered_example :
    (r : Command) × (apply_command put_x after_one.0 ≡ some (after_one.0, r))
    × (finish_request put_response r after_one.0 ≡ put_response failed_commit false "")
unfolding run_updater is_repeat lookup update apply_command execute insert
repeat_answered_example = repeat_answered put_x after_one.0 put_response refl (λ e. cc)

abbrev key_x : String
key_x = "x"

abbrev key_y : String
key_y = "y"

get-cas_example :
    ((get key_x written ≡ ("one", true))
      → get key_x (cas key_x "one" "two" written).0
        ≡ (if key_x == key_x then ("two", true) else get key_x written))
    × ((get key_x written ≢ ("one", true)) → (cas key_x "one" "two" written).0 ≡ written)
    × (((cas key_x "one" "two" written).1, (cas key_x "one" "two" written).2) ≡ get key_x written)
get-cas_example = get-cas key_x key_x "one" "two" written

-- Three services, of which the last leads; the client starts with the second.
abbrev client : KvClient
client = record {
  addrs = "a" ∷ "b" ∷ "c" ∷ [];
  assumed_leader = 1;
  client_id = pos 1;
  request_id = pos 0;
}

abbrev third_leads : ℕ → ℕ → Attempt
third_leads k i = if nat_beq i 2 then answered ok else answered not_leader

leader_found_example :
    send 3 third_leads 0 client ≡ some (record client { assumed_leader = 2 }, success)
leader_found_example =
    leader_found third_leads 2 client.addrs (λ k i ne. inl (ground arith)) (λ k. refl) 3 0 client
      refl (omega arith) (omega arith) (omega arith)
