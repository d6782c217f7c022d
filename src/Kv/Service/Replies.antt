-- ===== src/Kv/Service/Replies.antt =====
-- What the handlers answer, from the request to the reply.
use go_distributed_system.Base.{
  refl, ◌≡◌, ◌≢◌, true, false, some, String, Bool, int_eq, int_beq_iff, insert, pos, arith,
}
use go_distributed_system.Kv.Api.{
  Command, Response, ResponseStatus, failed_commit, ok, zero_command,
}
use go_distributed_system.Kv.Store.{DataStore}
use go_distributed_system.Kv.Service.{KvService, is_repeat, apply_command, execute, finish_request}

-- A command that this service submitted and that is not a repeat is answered ok, with what the
-- store returned for it, and the store is the one after it.
pub fresh_answered :
    (cmd : Command) (kvs : KvService) (make : ResponseStatus → Bool → String → Response)
    {ds : DataStore} {value : String} {found : Bool}
    → is_repeat cmd kvs.last_request_id_per_client ≡ false
    → cmd.is_duplicate ≡ false
    → cmd.service_id ≡ kvs.id
    → execute cmd.kind cmd kvs.ds ≡ some (ds, value, found)
    → (kvs' : KvService) × (r : Command) × (apply_command cmd kvs ≡ some (kvs', r))
      × (kvs'.ds ≡ ds)
      × (finish_request make r kvs' ≡ make ok found value)
unfolding apply_command finish_request
fresh_answered cmd kvs make {ds} {value} {found} fresh once own executed = (
  record kvs {
    ds = ds;
    last_request_id_per_client = insert cmd.client_id cmd.request_id kvs.last_request_id_per_client;
  },
  record cmd { result_value = value; result_found = found },
  rw (fresh, executed),
  refl,
  ground (arith, int_beq_iff cmd.service_id kvs.id),
)

-- A command that was seen is answered with a failed commit by every service whose number is not 0,
-- also by the one that submitted it: the command that is reported to the handler has the service
-- number 0, and the status of a duplicate is never sent.
pub repeat_answered :
    (cmd : Command) (kvs : KvService) (make : ResponseStatus → Bool → String → Response)
    → is_repeat cmd kvs.last_request_id_per_client ≡ true
    → kvs.id ≢ pos 0
    → (r : Command) × (apply_command cmd kvs ≡ some (kvs, r))
      × (finish_request make r kvs ≡ make failed_commit false "")
unfolding apply_command finish_request
repeat_answered cmd kvs make seen ne = (
  record zero_command { kind = cmd.kind; is_duplicate = true },
  rw seen,
  ground (arith, int_beq_iff (pos 0) kvs.id),
)
