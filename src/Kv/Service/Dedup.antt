-- ===== src/Kv/Service/Dedup.antt =====
-- A client's command is executed at most once, and replicas that apply the same commits agree.
use go_distributed_system.Base.{
  ℕ, ◌≡◌, refl, true, [], ◌∷◌, Option, none, some, lookup-insert, int_beq_iff, int_eq, if_true,
  arith, >>=-eq-some, List, ◌∷◌, Map, ℤ, ap, subst, some_inj, sym, ◌∙◌,
}
use go_distributed_system.Kv.Api.{Command, zero_command}
use go_distributed_system.Kv.Service.{
  KvService, Commit, is_repeat, apply_command, pop_commit_subscription, update, run_updater,
}

-- The part of the service that applying a command depends on.
pub record SameState (a b : KvService) : Type 0 where
  pub same_ds : a.ds ≡ b.ds
  pub same_last : a.last_request_id_per_client ≡ b.last_request_id_per_client

-- A command that was seen is a repeat, and does not change the state.
apply_repeat :
    (cmd : Command) (kvs : KvService)
    → is_repeat cmd kvs.last_request_id_per_client ≡ true
    → apply_command cmd kvs
      ≡ some (kvs, record zero_command { kind = cmd.kind; is_duplicate = true })
unfolding apply_command
apply_repeat cmd kvs h = if_true _ _ h

update_repeat :
    (entry : Commit) (kvs : KvService)
    → is_repeat entry.command kvs.last_request_id_per_client ≡ true
    → (kvs' : KvService) × (sent : Option (ℕ × Command)) × (update entry kvs ≡ some (kvs', sent))
      × SameState kvs' kvs
unfolding update
update_repeat entry kvs h = (
  (pop_commit_subscription entry.index kvs).0,
  elim (pop_commit_subscription entry.index kvs).1 [
    | none ↦ none
    | some ch ↦ some (ch, record zero_command { kind = entry.command.kind; is_duplicate = true })
  ],
  rw (apply_repeat entry.command kvs h),
  record { same_ds = refl; same_last = refl },
)

-- What one command leaves behind: it is a repeat from then on, and so is all that was one.
apply_marks :
    (cmd : Command) (kvs : KvService) {kvs' : KvService} {r : Command}
    → apply_command cmd kvs ≡ some (kvs', r)
    → is_repeat cmd kvs'.last_request_id_per_client ≡ true
unfolding apply_command is_repeat
apply_marks cmd kvs h =
    ground (
      arith,
      lookup-insert cmd.client_id cmd.client_id cmd.request_id kvs.last_request_id_per_client,
    )

apply_keeps :
    (old cmd : Command) (kvs : KvService) {kvs' : KvService} {r : Command}
    → apply_command cmd kvs ≡ some (kvs', r)
    → is_repeat old kvs.last_request_id_per_client ≡ true
    → is_repeat old kvs'.last_request_id_per_client ≡ true
unfolding apply_command is_repeat
apply_keeps old cmd kvs h seen = ground (
  arith,
  lookup-insert cmd.client_id old.client_id cmd.request_id kvs.last_request_id_per_client,
  int_beq_iff cmd.client_id old.client_id,
)

update_marks :
    (entry : Commit) (kvs : KvService) {kvs' : KvService} {sent : Option (ℕ × Command)}
    → update entry kvs ≡ some (kvs', sent)
    → is_repeat entry.command kvs'.last_request_id_per_client ≡ true
unfolding update pop_commit_subscription
update_marks entry kvs h =
    let (r, applied, after) = >>=-eq-some (apply_command entry.command kvs) _ h in
    let marked = apply_marks entry.command kvs applied in ground (arith)

update_keeps :
    (old : Command) (entry : Commit) (kvs : KvService) {kvs' : KvService}
    {sent : Option (ℕ × Command)}
    → update entry kvs ≡ some (kvs', sent)
    → is_repeat old kvs.last_request_id_per_client ≡ true
    → is_repeat old kvs'.last_request_id_per_client ≡ true
unfolding update pop_commit_subscription
update_keeps old entry kvs h seen =
    let (r, applied, after) = >>=-eq-some (apply_command entry.command kvs) _ h in
    let kept = apply_keeps old entry.command kvs applied seen in ground (arith)

run_keeps :
    (old : Command) (entries : List Commit) (kvs : KvService) {kvs' : KvService}
    {sent : List (ℕ × Command)}
    → run_updater entries kvs ≡ some (kvs', sent)
    → is_repeat old kvs.last_request_id_per_client ≡ true
    → is_repeat old kvs'.last_request_id_per_client ≡ true
unfolding run_updater
run_keeps old [] kvs h seen = ground arith
run_keeps old (entry ∷ entries) kvs h seen =
    let (r, updated, after) = >>=-eq-some (update entry kvs) _ h in
    let (rest, ran, last) = >>=-eq-some (run_updater entries r.0) _ after in
    let kept = run_keeps old entries r.0 ran (update_keeps old entry kvs updated seen) in
    ground (arith)

-- The commands of all the entries were seen.
pub data AllRepeat (last : Map ℤ ℤ) : List Commit → Type 0 where
  none_left : AllRepeat last []
  one_more :
      {entry : Commit} {entries : List Commit}
      → is_repeat entry.command last ≡ true
      → AllRepeat last entries
      → AllRepeat last (entry ∷ entries)

run_keeps_all :
    (entries : List Commit) (kvs : KvService) {kvs' : KvService} {sent : List (ℕ × Command)}
    → run_updater entries kvs ≡ some (kvs', sent)
    → (olds : List Commit) → AllRepeat kvs.last_request_id_per_client olds
    → AllRepeat kvs'.last_request_id_per_client olds
run_keeps_all entries kvs h _ none_left = none_left
run_keeps_all entries kvs h (old ∷ olds) (one_more seen all_seen) =
    one_more (run_keeps old.command entries kvs h seen) (run_keeps_all entries kvs h olds all_seen)

run_marks :
    (entries : List Commit) (kvs : KvService) {kvs' : KvService} {sent : List (ℕ × Command)}
    → run_updater entries kvs ≡ some (kvs', sent)
    → AllRepeat kvs'.last_request_id_per_client entries
unfolding run_updater
run_marks [] kvs h = none_left
run_marks (entry ∷ entries) kvs {kvs'} {sent} h =
    let (r, updated, after) = >>=-eq-some (update entry kvs) _ h in
    let (rest, ran, last) = >>=-eq-some (run_updater entries r.0) _ after in
    let seen : is_repeat entry.command rest.0.last_request_id_per_client ≡ true =
      run_keeps entry.command entries r.0 ran (update_marks entry kvs updated) in
    let same : rest.0 ≡ kvs' = ap (λ (x : KvService × List (ℕ × Command)). x.0) (some_inj last) in
    subst (λ x. AllRepeat x.last_request_id_per_client (entry ∷ entries)) same
      (one_more seen (run_marks entries r.0 ran))

run_repeat :
    (entries : List Commit) (kvs : KvService)
    → AllRepeat kvs.last_request_id_per_client entries
    → (kvs' : KvService) × (sent : List (ℕ × Command)) × (run_updater entries kvs
        ≡ some (kvs', sent))
      × SameState kvs' kvs
unfolding run_updater
run_repeat _ kvs none_left = (kvs, [], refl, record { same_ds = refl; same_last = refl })
run_repeat (entry ∷ entries) kvs (one_more seen all_seen) =
    let (kvs1, sent, updated, same) = update_repeat entry kvs seen in
    let (kvs2, sents, ran, same') =
      run_repeat entries kvs1 (subst (λ x. AllRepeat x entries) (sym same.same_last) all_seen) in
    (
      kvs2,
      elim sent [ none ↦ sents | some s ↦ s ∷ sents ],
      rw (updated, ran),
      record {
        same_ds = same'.same_ds ∙ same.same_ds;
        same_last = same'.same_last ∙ same.same_last;
      },
    )

-- Entries that the loop has applied do not change the store or the record of requests when they
-- are committed once more, with any other entries applied in between; the loop does not panic on
-- them.
pub retries_ignored :
    (entries more : List Commit) (kvs : KvService) {kvs1 kvs2 : KvService}
    {sent1 sent2 : List (ℕ × Command)}
    → run_updater entries kvs ≡ some (kvs1, sent1)
    → run_updater more kvs1 ≡ some (kvs2, sent2)
    → (kvs3 : KvService) × (sent3 : List (ℕ × Command)) × (run_updater entries kvs2
        ≡ some (kvs3, sent3))
      × SameState kvs3 kvs2
retries_ignored entries more kvs {kvs1} {kvs2} first second =
    run_repeat entries kvs2 (run_keeps_all more kvs1 second entries (run_marks entries kvs first))
