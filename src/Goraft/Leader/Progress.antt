-- ===== src/Goraft/Leader/Progress.antt =====
-- goraft/raft.go: the operations of a leader keep its file up to date, and the log is applied in order.
use go_distributed_system.Base.{
  ℕ, zero, suc, ◌+◌, ◌^◌, ◌<◌, ◌≤◌, ◌≡◌, inl, inr, refl, sym, ◌∙◌, ap, subst, Bool, true, not, ◌&&◌,
  ◌||◌, some, List, [], ◌∷◌, ◌++◌, map, length, get_elem?, get_elem?_in_range, set, nat_beq,
  length-set, Bool-cases, some_inj, if_false, if_true, >>=-eq-some, take, if◌then◌else◌, ◌>>=◌,
  arith,
}
use go_distributed_system.Goraft.State.{
  Entry, ClusterMember, Server, Clock, follower_state, get_voted_for, decrement,
}
use go_distributed_system.Goraft.Disk.Slots.{FitAll, HoldAll}
use go_distributed_system.Goraft.Disk.Invariant.{Kept, Kept-cluster, persist-Saved}
use go_distributed_system.Goraft.Disk.{persist, new_count}
use go_distributed_system.Goraft.Disk.Restart.{untouched_count}
use go_distributed_system.Goraft.Disk.Padded.{padded}
use go_distributed_system.Goraft.Disk.Appended.{appended-IsSound, HoldAll-appended}
use go_distributed_system.Goraft.Votes.{update_term}
use go_distributed_system.Goraft.Votes.Saved.{update_term_cases, some_pair_inj}
use go_distributed_system.Goraft.Votes.Grant.{update_term-Entered}
use go_distributed_system.Goraft.Votes.Returns.{update_term-eq-some}
use go_distributed_system.Goraft.Append.{AppendEntriesRequest, AppendEntriesResponse}
use go_distributed_system.Goraft.Leader.{
  is_leader, command_entry, accepted_member, refused_member, new_entries, apply, append_request,
  record_response, handle_append_response,
}

entries_of : ℕ → List (List ℕ × ℕ) → List Entry
entries_of term commands = map (command_entry term) commands

FitAll-commands :
    (term : ℕ) (commands : List (List ℕ × ℕ))
    → term < 2 ^ 64
    → FitAll (map (command_entry term) commands)
unfolding command_entry
FitAll-commands term [] word = tt
FitAll-commands term (c ∷ commands) word = (word, FitAll-commands term commands word)

length-commands :
    (term : ℕ) (commands : List (List ℕ × ℕ))
    → length commands ≡ length (map (command_entry term) commands)
length-commands term [] = refl
length-commands term (c ∷ commands) = ap suc (length-commands term commands)

-- Each command fits in a slot.
abbrev pub Small : List (List ℕ × ℕ) → Type 0
Small [] = Unit
Small (c ∷ commands) = (length c.0 ≤ 112) × Small commands

-- A change of a member that keeps its vote keeps every vote.
set_member_vote :
    (cs : List ClusterMember) (i k : ℕ) (c c' : ClusterMember)
    → get_elem? cs i ≡ some c
    → c'.voted_for ≡ c.voted_for
    → (do own ← get_elem? (set cs i c') k; some own.voted_for)
      ≡ (do own ← get_elem? cs k; some own.voted_for)
set_member_vote [] i k c c' at_i same = ground arith
set_member_vote (x ∷ cs) zero zero c c' at_i same =
    ap some (same ∙ ap (λ (m : ClusterMember). m.voted_for) (sym (some_inj at_i)))
set_member_vote (x ∷ cs) zero (suc k) c c' at_i same = refl
set_member_vote (x ∷ cs) (suc i) zero c c' at_i same = refl
set_member_vote (x ∷ cs) (suc i) (suc k) c c' at_i same = set_member_vote cs i k c c' at_i same

-- What a write of the last n entries leaves is held; a write of none writes the whole log.
rewritten-HoldAll :
    (bs : List (List ℕ)) (n : ℕ) (log es : List Entry)
    → n ≡ length es
    → HoldAll bs 0 log
    → HoldAll bs 0 (take (untouched_count true n (log ++ es)) (log ++ es))
unfolding new_count
rewritten-HoldAll bs zero log es count held =
    let l = log ++ es in
    let all_new : untouched_count true 0 l ≡ 0 = omega arith in
    subst (λ k. HoldAll bs 0 (take k l)) (sym all_new) tt
rewritten-HoldAll bs (suc n) log es count held =
    HoldAll-appended bs (suc n) log es count (omega arith) held

module _ {M : Type 0} where
  -- What `Apply` leaves when it returns, for any commands, also for none.
  pub applied-Kept :
      (commands : List (List ℕ × ℕ)) (s s' : Server M) (taken : Bool)
      → Kept s
      → length s.log + length commands < 2 ^ 64
      → apply commands s ≡ some (s', taken)
      → Kept s'
  unfolding apply
  applied-Kept commands s s' taken kept room e = elim (Bool-cases (is_leader s.state)) [
    | inr other ↦ subst Kept (some_pair_inj (sym (if_false _ _ other) ∙ e)).0 kept
    | inl leads ↦
        let es = map (command_entry s.current_term) commands in
        let count = length-commands s.current_term commands in
        let s0 : Server M = record s { log = s.log ++ es } in
        let (s1, written, e1) =
          >>=-eq-some (persist true (length commands) s0) _ (sym (if_true _ _ leads) ∙ e) in
        let sound =
          appended-IsSound s es kept.sound
            (FitAll-commands s.current_term commands kept.sound.words.term_word)
            (omega (arith, count, room)) in
        let saved =
          persist-Saved true (length commands) s0 s1 sound
            (rewritten-HoldAll (padded s.fd.slots) (length commands) s.log es count kept.held)
            written in
        subst Kept (some_pair_inj e1).0 saved.kept
  ]

  record_response-Kept :
      (i : ℕ) (req : AppendEntriesRequest) (rsp : AppendEntriesResponse) (s : Server M)
      → Kept s
      → i < length s.cluster
      → (s' : Server M) × (record_response i req rsp s ≡ some s') × Kept s'
  unfolding record_response accepted_member refused_member get_voted_for
  record_response-Kept i req rsp s kept lt =
      let (c, at_i) = get_elem?_in_range s.cluster i lt in
      let c' = if rsp.success then accepted_member req c else refused_member c in
      let same : c'.voted_for ≡ c.voted_for = elim (Bool-cases rsp.success) [
        | inl ok ↦ rw ok
        | inr no_good ↦ rw no_good
      ] in
      (
        record s { cluster = set s.cluster i c' },
        rw at_i,
        Kept-cluster s (set s.cluster i c') kept (length-set s.cluster i c')
            (set_member_vote s.cluster i s.cluster_index c c' at_i same),
      )

  -- A response is handled in every state, and leaves the file up to date.
  pub handle_append_response-Kept :
      (clock : Clock) (i : ℕ) (req : AppendEntriesRequest) (rsp : AppendEntriesResponse)
      (s : Server M)
      → Kept s
      → rsp.term < 2 ^ 64
      → i < length s.cluster
      → (s' : Server M) × (handle_append_response clock i req rsp s ≡ some s') × Kept s'
  unfolding handle_append_response
  handle_append_response-Kept clock i req rsp s kept word lt =
      let (s1, moved, entered) = update_term-eq-some clock rsp.term s kept word in
      let kept1 = (update_term-Entered clock rsp.term s s1 moved kept word entered).kept in
      let dropped = moved || (not (nat_beq rsp.term req.term) && is_leader s1.state) in
      elim (Bool-cases dropped) [
        | inl drop_it ↦ (s1, rw (entered, drop_it), kept1)
        | inr use_it ↦ elim (update_term_cases clock rsp.term s s1 moved kept word entered) [
          | inr (_, is_moved, _, _) ↦ cc (use_it, is_moved)
          | inl (_, same, _) ↦
              let lt1 : i < length s1.cluster =
                subst (λ (x : Server M). i < length x.cluster) (sym same) lt in
              let (s', e, kept') = record_response-Kept i req rsp s1 kept1 lt1 in
              (s', rw (entered, use_it, e), kept')
        ]
      ]

  -- A server that `updateTerm` brings to a later term follows in it, and still makes the request
  -- to append entries for a member whose entries before the next index it has, with this term.
  pub append_request_later_term :
      (clock : Clock) (term i : ℕ) (c : ClusterMember) (prev : Entry) (s s1 : Server M)
      → Kept s
      → s.current_term < term
      → term < 2 ^ 64
      → update_term clock term s ≡ some (s1, true)
      → get_elem? s1.cluster i ≡ some c
      → get_elem? s1.log (decrement c.next_index) ≡ some prev
      → (s1.state ≡ follower_state)
        × ((req : AppendEntriesRequest) × (append_request i s1 ≡ some req) × (req.term ≡ term))
  unfolding append_request
  append_request_later_term clock term i c prev s s1 kept later word entered at_i at_prev =
      elim (update_term_cases clock term s s1 true kept word entered) [
        | inl (earlier, _, _) ↦ absurd (omega arith)
        | inr (_, _, noted, follows) ↦
            let (own, at_own) =
              get_elem?_in_range s1.cluster s1.cluster_index noted.kept.sound.in_range in
            let req : AppendEntriesRequest = record {
              term = s1.current_term;
              leader_id = own.id;
              prev_log_index = decrement c.next_index;
              prev_log_term = prev.term;
              entries = new_entries c.next_index s1.log;
              leader_commit = s1.commit_index;
            } in
            (follows, (req, rw (at_i, at_prev, at_own), noted.term_is))
      ]
