-- ===== src/Goraft/Votes.antt =====
-- goraft/raft.go: elections. A handler runs with the lock of the server held; its calls of the network
-- are split where it releases the lock.
pub mod Saved
pub mod Grant
pub mod Office
pub mod Leadership
pub mod Returns
use go_distributed_system.Base.{
  ℕ, zero, suc, ◌+◌, ◌-◌, ◌/◌, Bool, true, false, not, ◌&&◌, ◌||◌, Option, none, some, List, [],
  ◌∷◌, ◌++◌, length, get_elem?, set, map, leb, ltb, nat_beq, if◌then◌else◌, ◌>>=◌,
}
use go_distributed_system.Goraft.State.{
  Entry, ClusterMember, ServerState, Server, Clock, leader_state, follower_state, candidate_state,
  increment, last_entry, set_voted_for, get_voted_for, reset_election_timeout,
}
use go_distributed_system.Goraft.Disk.{persist}

pub record RequestVoteRequest : Type 0 where
  pub term : ℕ
  pub candidate_id : ℕ
  pub last_log_index : ℕ
  pub last_log_term : ℕ

pub record RequestVoteResponse : Type 0 where
  pub term : ℕ
  pub vote_granted : Bool

-- `logOk`
unfoldable pub log_ok : RequestVoteRequest → ℕ → ℕ → Bool
log_ok req last_log_term log_len =
    ltb last_log_term req.last_log_term
    || (nat_beq req.last_log_term last_log_term && leb log_len req.last_log_index)

-- `grant`
unfoldable pub grants : RequestVoteRequest → ℕ → ℕ → ℕ → ℕ → Bool
grants req current_term last_log_term log_len vote =
    (nat_beq req.term current_term && log_ok req last_log_term log_len)
    && (nat_beq vote 0 || nat_beq vote req.candidate_id)

-- The other members of the cluster, from index i on.
unfoldable pub others : ℕ → ℕ → List ClusterMember → List ℕ
others own i [] = []
others own i (c ∷ cs) = let rest = others own (suc i) cs in if nat_beq i own then rest else i ∷ rest

-- The loop of `timeout`: the votes of an earlier election are dropped.
unfoldable pub stand : ℕ → ℕ → ℕ → List ClusterMember → List ClusterMember
stand id own i [] = []
stand id own i (c ∷ cs) =
    record c { voted_for = (if nat_beq i own then id else 0) } ∷ stand id own (suc i) cs

-- The loop of `becomeLeader` that counts the votes down.
unfoldable pub missing_votes : ℕ → ℕ → List ClusterMember → ℕ
missing_votes id quorum [] = quorum
missing_votes id quorum (c ∷ cs) =
    missing_votes id (if nat_beq c.voted_for id && ltb 0 quorum then quorum - 1 else quorum) cs

-- The loop that resets the state of the cluster.
unfoldable pub reset_cluster : ℕ → List ClusterMember → List ClusterMember
reset_cluster log_len cs =
    map (λ (c : ClusterMember). record c { next_index = log_len + 1; match_index = 0 }) cs

module _ {M : Type 0} where
  -- What `updateTerm` does on a later term.
  unfoldable pub enter_term : Clock → ℕ → Server M → Option (Server M)
  enter_term clock term s = do
    s1 ← set_voted_for 0 (record s { current_term = term; state = follower_state })
    persist false 0 (reset_election_timeout clock s1)

  unfoldable pub update_term : Clock → ℕ → Server M → Option (Server M × Bool)
  update_term clock term s =
      if ltb s.current_term term
      then (do s1 ← enter_term clock term s; some (s1, true))
      else some (s, false)

  -- A vote that is granted.
  unfoldable pub cast_vote :
      Clock → RequestVoteRequest → Server M → Option (Server M × RequestVoteResponse)
  cast_vote clock req s = do
    s1 ← set_voted_for req.candidate_id s
    s2 ← persist false 0 (reset_election_timeout clock s1)
    some (s2, record { term = s.current_term; vote_granted = true })

  -- `HandleRequestVoteRequest` behind the call of `updateTerm`.
  unfoldable pub answer_vote :
      Clock → RequestVoteRequest → Server M → Option (Server M × RequestVoteResponse)
  answer_vote clock req s =
      let refused : RequestVoteResponse = record { term = s.current_term; vote_granted = false } in
      if ltb req.term s.current_term then some (s, refused) else (do
        last ← last_entry s.log
        vote ← get_voted_for s
        if grants req s.current_term last.term (length s.log - 1) vote
            then cast_vote clock req s
            else some (s, refused))

  -- The clock is read once for a later term, and once for a vote.
  unfoldable pub handle_request_vote :
      Clock → Clock → RequestVoteRequest → Server M → Option (Server M × RequestVoteResponse)
  handle_request_vote clock clock' req s = do
    r ← update_term clock req.term s
    answer_vote clock' req r.0

  -- `requestVote`: the request to a member, and what is done with its response.
  unfoldable pub vote_request : Server M → Option RequestVoteRequest
  vote_request s = do
    last ← last_entry s.log
    some (record {
      term = s.current_term;
      candidate_id = s.id;
      last_log_index = length s.log - 1;
      last_log_term = last.term;
    })

  unfoldable pub record_vote : ℕ → Server M → Option (Server M)
  record_vote i s = do
    c ← get_elem? s.cluster i
    some (record s { cluster = set s.cluster i (record c { voted_for = s.id }) })

  unfoldable pub handle_vote_response :
      Clock → ℕ → RequestVoteRequest → RequestVoteResponse → Server M → Option (Server M)
  handle_vote_response clock i req rsp s = do
    r ← update_term clock rsp.term s
    if (r.1 || not (nat_beq rsp.term req.term)) || not rsp.vote_granted
        then some r.0
        else record_vote i r.0

  -- The candidate that `timeout` makes of a server, before it is persisted.
  unfoldable pub candidate : Server M → Server M
  candidate s = record s {
    state = candidate_state;
    current_term = increment s.current_term;
    cluster = stand s.id s.cluster_index 0 s.cluster;
  }

  -- `timeout`, which reads the time before, with the members of which votes are then requested.
  unfoldable pub timeout : ℕ → Clock → Server M → Option (Server M × List ℕ)
  timeout now clock s =
      let targets = others s.cluster_index 0 s.cluster in
      if ltb s.election_timeout now
      then (do
        s1 ← persist false 0 (reset_election_timeout clock (candidate s))
        some (s1, targets))
      else some (s, [])

  -- The leader that `becomeLeader` makes of a candidate, before it is persisted.
  unfoldable pub elected : Server M → Server M
  elected s = record s {
    cluster = reset_cluster (length s.log) s.cluster;
    state = leader_state;
    log = s.log ++ (record { command = []; term = s.current_term; result = none } ∷ []);
  }

  unfoldable pub become_leader : Clock → Server M → Option (Server M)
  become_leader clock s =
      if nat_beq (missing_votes s.id (length s.cluster / 2 + 1) s.cluster) 0
      then (do s1 ← persist true 1 (elected s); some (record s1 { heartbeat_timeout = clock.now }))
      else some s
