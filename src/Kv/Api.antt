-- ===== src/Kv/Api.antt =====
-- raft/part5kv/api/api.go and raft/part5kv/kvservice/command.go.
-- A Go string is a `String`; an `int64` is ℤ, without its wrap-around.
use go_distributed_system.Base.{ℤ, pos, String, Bool, false}

pub data ResponseStatus : Type 0 where
  invalid ok not_leader failed_commit duplicate_request : ResponseStatus

pub record PutRequest : Type 0 where
  pub key : String
  pub value : String
  pub client_id : ℤ
  pub request_id : ℤ

pub record AppendRequest : Type 0 where
  pub key : String
  pub value : String
  pub client_id : ℤ
  pub request_id : ℤ

pub record GetRequest : Type 0 where
  pub key : String
  pub client_id : ℤ
  pub request_id : ℤ

pub record CasRequest : Type 0 where
  pub key : String
  pub compare_value : String
  pub value : String
  pub client_id : ℤ
  pub request_id : ℤ

-- The four response types: the status, `KeyFound`, and `PrevValue` or `Value`.
pub data Response : Type 0 where
  put_response append_response get_response cas_response : ResponseStatus → Bool → String → Response

-- The `Status` methods.
abbrev pub status : Response → ResponseStatus
status (put_response s found value) = s
status (append_response s found value) = s
status (get_response s found value) = s
status (cas_response s found value) = s

pub data CommandKind : Type 0 where
  command_invalid command_get command_put command_append command_cas : CommandKind

pub record Command : Type 0 where
  pub kind : CommandKind
  pub key : String
  pub value : String
  pub compare_value : String
  pub result_value : String
  pub result_found : Bool
  pub service_id : ℤ
  pub client_id : ℤ
  pub request_id : ℤ
  pub is_duplicate : Bool

-- The zero value of the struct.
abbrev pub zero_command : Command
zero_command = record {
  kind = command_invalid;
  key = "";
  value = "";
  compare_value = "";
  result_value = "";
  result_found = false;
  service_id = pos 0;
  client_id = pos 0;
  request_id = pos 0;
  is_duplicate = false;
}
