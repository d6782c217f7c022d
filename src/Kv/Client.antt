-- ===== src/Kv/Client.antt =====
-- raft/part5kv/kvclient/kvclient.go. What the network and the contexts do is the environment: for
-- each attempt of a call, and the address that it goes to, how the attempt ends.
pub mod Rotation
use go_distributed_system.Base.{
  ℕ, zero, suc, ◌+◌, ◌%◌, ℤ, pos, ◌+ℤ◌, String, Bool, Option, none, some, List, length, get_elem?,
  if◌then◌else◌,
}
use go_distributed_system.Kv.Api.{
  ResponseStatus, invalid, ok, not_leader, failed_commit, duplicate_request, PutRequest,
  AppendRequest, GetRequest, CasRequest,
}

-- `assumed_leader` starts at 0 and is taken modulo the number of addresses: it is never negative.
pub record KvClient : Type 0 where
  pub addrs : List String
  pub assumed_leader : ℕ
  pub client_id : ℤ
  pub request_id : ℤ

-- `client_count` is the global counter before the call; it is one more afterwards.
unfoldable pub new : List String → ℤ → KvClient
new service_addrs client_count = record {
  addrs = service_addrs;
  assumed_leader = 0;
  client_id = client_count +ℤ pos 1;
  request_id = pos 0;
}

-- An attempt fails, and then either context may be done, or it is answered with a status.
pub data Attempt : Type 0 where
  failed : (context_done deadline_exceeded : Bool) → Attempt
  answered : ResponseStatus → Attempt

-- `success` is a nil error. `crashed` is a panic.
pub data Outcome : Type 0 where
  success request_error commit_failed already_completed crashed : Outcome

abbrev pub Environment : Type 0
Environment = ℕ → ℕ → Attempt

abbrev pub rotate : KvClient → KvClient
rotate c = record c { assumed_leader = (c.assumed_leader + 1) % length c.addrs }

-- The loop, from its `attempt`-th attempt on; `none` is that the fuel is used up while it still
-- looks for the leader.
unfoldable pub send : ℕ → Environment → ℕ → KvClient → Option (KvClient × Outcome)
send zero env attempt c = none
send (suc fuel) env attempt c =
    let rest = send fuel env (suc attempt) (rotate c) in
    elim (get_elem? c.addrs c.assumed_leader) [
      | none ↦ some (c, crashed)
      | some addr ↦ elim (env attempt c.assumed_leader) [
        | failed done exceeded ↦
            if done
            then some (c, request_error)
            else if exceeded
            then rest
            else some (c, request_error)
        | answered status ↦ elim status [
          | not_leader ↦ rest
          | ok ↦ some (c, success)
          | failed_commit ↦ some (c, commit_failed)
          | duplicate_request ↦ some (c, already_completed)
          | invalid ↦ some (c, crashed)
        ]
      ]
    ]

-- `c.requestID.Add(1)`, and the requests that carry the new number.
abbrev pub next_request : KvClient → KvClient
next_request c = record c { request_id = c.request_id +ℤ pos 1 }

unfoldable pub put_request : String → String → KvClient → KvClient × PutRequest
put_request key value c =
    let c' = next_request c in
    (c', record { key = key; value = value; client_id = c'.client_id; request_id = c'.request_id })

unfoldable pub append_request : String → String → KvClient → KvClient × AppendRequest
append_request key value c =
    let c' = next_request c in
    (c', record { key = key; value = value; client_id = c'.client_id; request_id = c'.request_id })

unfoldable pub get_request : String → KvClient → KvClient × GetRequest
get_request key c =
    let c' = next_request c in
    (c', record { key = key; client_id = c'.client_id; request_id = c'.request_id })

unfoldable pub cas_request : String → String → String → KvClient → KvClient × CasRequest
cas_request key compare value c =
    let c' = next_request c in
    (
      c',
      record {
        key = key;
        compare_value = compare;
        value = value;
        client_id = c'.client_id;
        request_id = c'.request_id;
      },
    )
