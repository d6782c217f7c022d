-- ===== src/Kv/Service.antt =====
-- raft/part5kv/kvservice/kvservice.go: the loop that applies committed commands, the
-- subscriptions, and the HTTP handlers up to the point where they wait, and from there on.
-- A channel is a number that names it. JSON and HTTP are left to the caller: a handler takes the
-- decoded request, or none, and gives the response that is sent.
pub mod Dedup
pub mod Replies
use go_distributed_system.Base.{
  ℕ, ℤ, pos, Bool, true, false, Option, none, some, List, [], ◌∷◌, Map, lookup, insert, delete,
  leb_ℤ, ltb_ℤ, ◌==◌, int_eq, if◌then◌else◌, ◌>>=◌, String,
}
use go_distributed_system.Kv.Api.{
  ResponseStatus, ok, not_leader, failed_commit, duplicate_request, PutRequest, AppendRequest,
  GetRequest, CasRequest, Response, put_response, append_response, get_response, cas_response,
  CommandKind, command_invalid, command_get, command_put, command_append, command_cas, Command,
  zero_command,
}
use go_distributed_system.Kv.Store
use go_distributed_system.Kv.Store.{DataStore, new_data_store}

pub record KvService : Type 0 where
  pub id : ℤ
  pub commit_subs : Map ℤ ℕ
  pub ds : DataStore
  pub last_request_id_per_client : Map ℤ ℤ

unfoldable pub new : ℤ → KvService
new id = record { id = id; commit_subs = []; ds = new_data_store; last_request_id_per_client = [] }

-- `none` is the panic on a second subscription for one index. `ch` is the new channel.
unfoldable pub create_commit_subscription : ℤ → ℕ → KvService → Option KvService
create_commit_subscription log_index ch kvs = elim (lookup log_index kvs.commit_subs) [
  | some _ ↦ none
  | none ↦ some (record kvs { commit_subs = insert log_index ch kvs.commit_subs })
]

unfoldable pub pop_commit_subscription : ℤ → KvService → KvService × Option ℕ
pop_commit_subscription log_index kvs = (
  record kvs { commit_subs = delete log_index kvs.commit_subs },
  lookup log_index kvs.commit_subs,
)

-- The `switch` on the kind; `none` is the panic on a kind that is unexpected.
unfoldable pub execute : CommandKind → Command → DataStore → Option (DataStore × String × Bool)
execute command_invalid cmd ds = none
execute command_get cmd ds = let (v, found) = Store.get cmd.key ds in some (ds, v, found)
execute command_put cmd ds = some (Store.put cmd.key cmd.value ds)
execute command_append cmd ds = some (Store.append cmd.key cmd.value ds)
execute command_cas cmd ds = some (Store.cas cmd.key cmd.compare_value cmd.value ds)

-- `ok && lastReqID >= cmd.RequestID`
unfoldable pub is_repeat : Command → Map ℤ ℤ → Bool
is_repeat cmd last = elim (lookup cmd.client_id last) [
  | none ↦ false
  | some last_req_id ↦ leb_ℤ cmd.request_id last_req_id
]

-- The new service and the command that is reported to the subscriber.
unfoldable pub apply_command : Command → KvService → Option (KvService × Command)
apply_command cmd kvs =
    if is_repeat cmd kvs.last_request_id_per_client
    then some (kvs, record zero_command { kind = cmd.kind; is_duplicate = true })
    else do
      r ← execute cmd.kind cmd kvs.ds
      some (
        record kvs {
          ds = r.0;
          last_request_id_per_client =
              insert cmd.client_id cmd.request_id kvs.last_request_id_per_client;
        },
        record cmd { result_value = r.1; result_found = r.2 },
      )

-- A committed entry: its command and its log index.
pub record Commit : Type 0 where
  pub command : Command
  pub index : ℤ

-- One round of the loop; the second result is what is sent, and on which channel.
unfoldable pub update : Commit → KvService → Option (KvService × Option (ℕ × Command))
unfolding pop_commit_subscription
update entry kvs = do
  r ← apply_command entry.command kvs
  let (kvs', sub) = pop_commit_subscription entry.index r.0
  some (kvs', elim sub [ none ↦ none | some ch ↦ some (ch, r.1) ])

-- The loop over the commit channel; what is sent, in order.
unfoldable pub run_updater : List Commit → KvService → Option (KvService × List (ℕ × Command))
run_updater [] kvs = some (kvs, [])
run_updater (entry ∷ entries) kvs = do
  r ← update entry kvs
  rest ← run_updater entries r.0
  some (rest.0, elim r.1 [ none ↦ rest.1 | some sent ↦ sent ∷ rest.1 ])

-- How far a handler comes before it waits: a 400 error, a response at once, or a channel to wait on.
pub data Started : Type 0 where
  bad_request : Started
  replied : Response → Started
  waiting : ℕ → Started

-- `submit` is `Submit` of the Raft server: the log index of the command, or a negative number.
unfoldable pub start_request :
    (Command → ℤ) → ℕ → Command → Response → KvService → Option (KvService × Started)
unfolding create_commit_subscription
start_request submit ch cmd refusal kvs =
    let log_index = submit cmd in
    if ltb_ℤ log_index (pos 0)
    then some (kvs, replied refusal)
    else do kvs' ← create_commit_subscription log_index ch kvs; some (kvs', waiting ch)

unfoldable pub start_put :
    (Command → ℤ) → ℕ → Option PutRequest → KvService → Option (KvService × Started)
unfolding start_request
start_put submit ch none kvs = some (kvs, bad_request)
start_put submit ch (some pr) kvs =
    start_request submit ch
      (record zero_command {
        kind = command_put;
        key = pr.key;
        value = pr.value;
        service_id = kvs.id;
        client_id = pr.client_id;
        request_id = pr.request_id;
      })
      (put_response not_leader false "") kvs

unfoldable pub start_append :
    (Command → ℤ) → ℕ → Option AppendRequest → KvService → Option (KvService × Started)
unfolding start_request
start_append submit ch none kvs = some (kvs, bad_request)
start_append submit ch (some ar) kvs =
    start_request submit ch
      (record zero_command {
        kind = command_append;
        key = ar.key;
        value = ar.value;
        service_id = kvs.id;
        client_id = ar.client_id;
        request_id = ar.request_id;
      })
      (append_response not_leader false "") kvs

unfoldable pub start_get :
    (Command → ℤ) → ℕ → Option GetRequest → KvService → Option (KvService × Started)
unfolding start_request
start_get submit ch none kvs = some (kvs, bad_request)
start_get submit ch (some gr) kvs =
    start_request submit ch
      (record zero_command {
        kind = command_get;
        key = gr.key;
        service_id = kvs.id;
        client_id = gr.client_id;
        request_id = gr.request_id;
      })
      (get_response not_leader false "") kvs

unfoldable pub start_cas :
    (Command → ℤ) → ℕ → Option CasRequest → KvService → Option (KvService × Started)
unfolding start_request
start_cas submit ch none kvs = some (kvs, bad_request)
start_cas submit ch (some cr) kvs =
    start_request submit ch
      (record zero_command {
        kind = command_cas;
        key = cr.key;
        value = cr.value;
        compare_value = cr.compare_value;
        service_id = kvs.id;
        client_id = cr.client_id;
        request_id = cr.request_id;
      })
      (cas_response not_leader false "") kvs

-- The response of a handler that was waiting, for the command that comes on its channel; `make` is
-- the response type of the handler.
unfoldable pub finish_request :
    (ResponseStatus → Bool → String → Response) → Command → KvService → Response
finish_request make cmd kvs =
    if cmd.service_id == kvs.id
    then (if cmd.is_duplicate
        then make duplicate_request false ""
        else make ok cmd.result_found cmd.result_value)
    else make failed_commit false ""
