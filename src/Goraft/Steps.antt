-- ===== src/Goraft/Steps.antt =====
-- goraft/raft.go: the runs of a server. A step is what one holder of the lock does; the loop of `Start`
-- and the handlers take the lock in any order.
use go_distributed_system.Base.{
  ℕ, ◌+◌, ◌*◌, ltb, ◌^◌, ◌<◌, ◌≡◌, ◌≢◌, inl, inr, sym, ◌∙◌, subst, Bool, not, ◌||◌, Option, some,
  List, ◌∷◌, length, get_elem?_in_range, get_elem?-set_ne, set, nat_beq, length-set, Bool-cases,
  some_inj,
}
use go_distributed_system.Goraft.State.{
  Entry, ClusterMember, Server, Clock, copy_cluster, get_voted_for,
}
use go_distributed_system.Goraft.Disk.{start}
use go_distributed_system.Goraft.Disk.Slots.{FitAll, Writable}
use go_distributed_system.Goraft.Disk.Restore.{Restored}
use go_distributed_system.Goraft.Disk.Recovery.{start-Restored}
use go_distributed_system.Goraft.Disk.Invariant.{Kept, Kept-volatile, Kept-cluster, Kept-Durable}
use go_distributed_system.Goraft.Votes.{
  RequestVoteRequest, RequestVoteResponse, handle_request_vote, record_vote, handle_vote_response,
  timeout, become_leader,
}
use go_distributed_system.Goraft.Votes.Saved.{some_pair_inj, update_term_cases}
use go_distributed_system.Goraft.Votes.Grant.{handle_request_vote-Noted, update_term-Entered}
use go_distributed_system.Goraft.Votes.Office.{timeout-Noted}
use go_distributed_system.Goraft.Votes.Leadership.{become_leader-InOffice}
use go_distributed_system.Goraft.Votes.Returns.{update_term-eq-some}
use go_distributed_system.Goraft.Append.{
  AppendEntriesRequest, AppendEntriesResponse, handle_append_entries,
}
use go_distributed_system.Goraft.Append.Merge.{IsCapacity}
use go_distributed_system.Goraft.Append.Answer.{handle_append_entries-Answered}
use go_distributed_system.Goraft.Leader.{
  apply, heartbeat, handle_append_response, advance_commit_index,
}
use go_distributed_system.Goraft.Leader.Progress.{applied-Kept, handle_append_response-Kept}
use go_distributed_system.Goraft.Leader.Advance.{advanced-Kept}

module _ {M : Type 0} where
  record_vote-Kept :
      (i : ℕ) (s : Server M)
      → Kept s
      → i < length s.cluster
      → i ≢ s.cluster_index
      → (s' : Server M) × (record_vote i s ≡ some s') × Kept s'
  unfolding record_vote get_voted_for
  record_vote-Kept i s kept lt other =
      let (c, at_i) = get_elem?_in_range s.cluster i lt in
      let c' : ClusterMember = record c { voted_for = s.id } in
      let same = get_elem?-set_ne s.cluster i s.cluster_index c' (λ p. other (sym p)) in
      (
        record s { cluster = set s.cluster i c' },
        rw at_i,
        Kept-cluster s (set s.cluster i c') kept (length-set s.cluster i c') (rw same),
      )

  heartbeat-Kept : (now later : ℕ) (s : Server M) → Kept s → Kept (heartbeat now later s).0
  unfolding heartbeat
  heartbeat-Kept now later s kept = elim (Bool-cases (ltb s.heartbeat_timeout now)) [
    | inl due ↦ rw due (
        Kept-volatile s s.state s.commit_index s.last_applied s.election_timeout
          (later + s.heartbeat_ms * 1000000) s.statemachine kept)
    | inr early ↦ rw early kept
  ]

  -- A vote of another member is recorded without a write.
  pub handle_vote_response-Kept :
      (clock : Clock) (i : ℕ) (req : RequestVoteRequest) (rsp : RequestVoteResponse) (s : Server M)
      → Kept s
      → rsp.term < 2 ^ 64
      → i < length s.cluster
      → i ≢ s.cluster_index
      → (s' : Server M) × (handle_vote_response clock i req rsp s ≡ some s') × Kept s'
  unfolding handle_vote_response
  handle_vote_response-Kept clock i req rsp s kept word lt other =
      let (s1, moved, entered) = update_term-eq-some clock rsp.term s kept word in
      let kept1 = (update_term-Entered clock rsp.term s s1 moved kept word entered).kept in
      let dropped = (moved || not (nat_beq rsp.term req.term)) || not rsp.vote_granted in
      elim (Bool-cases dropped) [
        | inl drop_it ↦ (s1, rw (entered, drop_it), kept1)
        | inr use_it ↦ elim (update_term_cases clock rsp.term s s1 moved kept word entered) [
          | inr (_, is_moved, _, _) ↦ cc (use_it, is_moved)
          | inl (_, same, _) ↦
              let lt1 : i < length s1.cluster =
                subst (λ (x : Server M). i < length x.cluster) (sym same) lt in
              let other1 : i ≢ s1.cluster_index =
                subst (λ (x : Server M). i ≢ x.cluster_index) (sym same) other in
              let (s', e, kept') = record_vote-Kept i s1 kept1 lt1 other1 in
              (s', rw (entered, use_it, e), kept')
        ]
      ]

-- What one holder of the lock does. The terms and ids of messages are uint64s, and the log is far below
-- 2 ^ 64 entries. Each request may meet a slice of another capacity. A panic is no step.
pub data Step {M R : Type 0} (run : List ℕ → M → M × R) (s : Server M) : Server M → Type 0 where
  request_vote_step :
      (clock clock' : Clock) (req : RequestVoteRequest) (rsp : RequestVoteResponse) (s' : Server M)
      → req.term < 2 ^ 64
      → req.candidate_id < 2 ^ 64
      → handle_request_vote clock clock' req s ≡ some (s', rsp)
      → Step run s s'
  vote_response_step :
      (clock : Clock) (i : ℕ) (req : RequestVoteRequest) (rsp : RequestVoteResponse) (s' : Server M)
      → rsp.term < 2 ^ 64
      → i < length s.cluster
      → i ≢ s.cluster_index
      → handle_vote_response clock i req rsp s ≡ some s'
      → Step run s s'
  timeout_step :
      (now : ℕ) (clock : Clock) (s' : Server M) (targets : List ℕ)
      → timeout now clock s ≡ some (s', targets)
      → Step run s s'
  become_leader_step :
      (clock : Clock) (s' : Server M)
      → length s.log + 1 < 2 ^ 64
      → become_leader clock s ≡ some s'
      → Step run s s'
  append_entries_step :
      (full : ℕ → List Entry → Bool) (clock clock' : Clock) (req : AppendEntriesRequest)
      (rsp : AppendEntriesResponse) (s' : Server M)
      → IsCapacity full
      → req.term < 2 ^ 64
      → FitAll req.entries
      → Writable req.entries
      → length s.log + length req.entries < 2 ^ 64
      → handle_append_entries full clock clock' req s ≡ some (s', rsp)
      → Step run s s'
  append_response_step :
      (clock : Clock) (i : ℕ) (req : AppendEntriesRequest) (rsp : AppendEntriesResponse)
      (s' : Server M)
      → rsp.term < 2 ^ 64
      → i < length s.cluster
      → handle_append_response clock i req rsp s ≡ some s'
      → Step run s s'
  apply_step :
      (commands : List (List ℕ × ℕ)) (s' : Server M) (taken : Bool)
      → length s.log + length commands < 2 ^ 64
      → apply commands s ≡ some (s', taken)
      → Step run s s'
  heartbeat_step : (now later : ℕ) → Step run s (heartbeat now later s).0
  advance_step :
      (s' : Server M) (sent : Option (ℕ × R))
      → advance_commit_index run s ≡ some (s', sent)
      → Step run s s'

pub data Reach {M R : Type 0} (run : List ℕ → M → M × R) (s : Server M) : Server M → Type 0 where
  none_yet : Reach run s s
  one_more : (s1 s2 : Server M) → Reach run s s1 → Step run s1 s2 → Reach run s s2

same_result {ℓ} : {A : Type ℓ} {m : Option A} {a b : A} → m ≡ some a → m ≡ some b → a ≡ b
same_result e e' = some_inj (sym e ∙ e')

module _ {M R : Type 0} (run : List ℕ → M → M × R) where
  Step-Kept : (s s' : Server M) → Kept s → Step run s s' → Kept s'
  Step-Kept s s' kept (request_vote_step clock clock' req rsp _ word id_word e) =
      elim (handle_request_vote-Noted clock clock' req s s' rsp kept word id_word e) [
        | inl (_, kept', _) ↦ kept'
        | inr (_, _, _, _, _, noted) ↦ noted.kept
      ]
  Step-Kept s s' kept (vote_response_step clock i req rsp _ word lt other e) =
      let (s1, e1, kept1) = handle_vote_response-Kept clock i req rsp s kept word lt other in
      subst Kept (same_result e1 e) kept1
  Step-Kept s s' kept (timeout_step now clock _ targets e) =
      elim (timeout-Noted now clock s s' targets kept e) [
        | inl (_, same, _) ↦ subst Kept (sym same) kept
        | inr (_, _, _, _, noted) ↦ noted.kept
      ]
  Step-Kept s s' kept (become_leader_step clock _ room e) =
      let (s1, e1, which) = become_leader-InOffice clock s kept room in
      subst Kept (same_result e1 e)
        (elim which [ inl (_, office) ↦ office.kept | inr (_, same) ↦ subst Kept (sym same) kept ])
  Step-Kept s s' kept
        (append_entries_step full clock clock' req rsp _ capacity word fits writable room e) =
      let (s1, rsp1, e1, answered) =
        handle_append_entries-Answered full clock clock' req s kept capacity word fits writable
          room in
      subst Kept (some_pair_inj (sym e1 ∙ e)).0 answered.kept
  Step-Kept s s' kept (append_response_step clock i req rsp _ word lt e) =
      let (s1, e1, kept1) = handle_append_response-Kept clock i req rsp s kept word lt in
      subst Kept (same_result e1 e) kept1
  Step-Kept s s' kept (apply_step commands _ taken room e) =
      applied-Kept commands s s' taken kept room e
  Step-Kept s s' kept (heartbeat_step now later) = heartbeat-Kept now later s kept
  Step-Kept s s' kept (advance_step _ sent e) = advanced-Kept run s s' sent kept e

  -- Whatever a server does, its file is up to date whenever the lock is free.
  pub Reach-Kept : (s s' : Server M) → Kept s → Reach run s s' → Kept s'
  Reach-Kept s s' kept none_yet = kept
  Reach-Kept s s' kept (one_more s1 _ before step) =
      Step-Kept s1 s' (Reach-Kept s s1 kept before) step

  -- From a server whose file is up to date, and after any steps of it, a server that starts on
  -- the file, where this has a page and a slot, has the term, the vote and the log that the
  -- stopped server had, the channels of the entries apart.
  pub Reach-restart :
      (s s' : Server M) (p : List ℕ) (b : List ℕ) (bs : List (List ℕ))
      (config cluster : List ClusterMember) (m : M) (i : ℕ) (clock : Clock)
      → Kept s
      → Reach run s s'
      → s'.fd.page ≡ some p
      → s'.fd.slots ≡ b ∷ bs
      → copy_cluster config ≡ some cluster
      → i < length cluster
      → (r : Server M) × (start config m s'.fd i clock ≡ some r) × Restored s' r
  Reach-restart s s' p b bs config cluster m i clock kept reach page slots copied lt =
      let kept' = Reach-Kept s s' kept reach in
      start-Restored s' config cluster m i clock (Kept-Durable s' kept' page slots)
        kept'.sound.some_entry copied lt
