-- ===== src/Goraft/Append/Splice.antt =====
-- goraft/raft.go: what the merge of `HandleAppendEntriesRequest` keeps of the log, and what is new in it.
use mathlib.Core.List.{append_assoc, append-nil}
use go_distributed_system.Base.{
  ℕ, suc, ◌≡◌, inl, inr, refl, sym, ◌∙◌, ap, subst, List, [], ◌∷◌, ◌++◌, length, drop,
  take-append_self, Bool-cases, if_true, if_false, nat_beq,
}
use go_distributed_system.Goraft.State.{Entry}
use go_distributed_system.Goraft.Disk.Slots.{HoldAll, HoldAll-take, FitAll, FitAll-take}
use go_distributed_system.Goraft.Append.Merge.{merge, merge_count}

-- A log of which a front stays and to which n entries of a list are appended, the last of that list.
pub record Spliced (log es log' : List Entry) (n : ℕ) : Type 0 where
  pub front : List Entry
  pub back : List Entry
  pub skip : ℕ
  pub log_is : log ≡ front ++ back
  pub new_is : log' ≡ front ++ drop skip es
  pub count : n ≡ length (drop skip es)

pub merge-Spliced : (log es : List Entry) → Spliced log es (merge log es) (merge_count log es)
unfolding merge merge_count
merge-Spliced log [] = record {
  front = log;
  back = [];
  skip = 0;
  log_is = sym (append-nil log);
  new_is = sym (append-nil log);
  count = refl;
}
merge-Spliced [] (e ∷ es) = record {
  front = [];
  back = [];
  skip = 0;
  log_is = refl;
  new_is = refl;
  count = refl;
}
merge-Spliced (x ∷ log) (e ∷ es) = elim (Bool-cases (nat_beq x.term e.term)) [
  | inl same ↦
      let rest = merge-Spliced log es in
      record {
        front = x ∷ rest.front;
        back = rest.back;
        skip = suc rest.skip;
        log_is = ap (λ l. x ∷ l) rest.log_is;
        new_is = if_true _ _ same ∙ ap (λ l. x ∷ l) rest.new_is;
        count = if_true _ _ same ∙ rest.count;
      }
  | inr other ↦ record {
    front = [];
    back = x ∷ log;
    skip = 0;
    log_is = refl;
    new_is = if_false _ _ other;
    count = if_false _ _ other;
  }
]

-- The same behind entries that stay.
pub Spliced-behind :
    (pre log es log' : List Entry) (n : ℕ)
    → Spliced log es log' n
    → Spliced (pre ++ log) es (pre ++ log') n
Spliced-behind pre log es log' n s = record {
  front = pre ++ s.front;
  back = s.back;
  skip = s.skip;
  log_is = ap (λ l. pre ++ l) s.log_is ∙ sym (append_assoc pre s.front s.back);
  new_is = ap (λ l. pre ++ l) s.new_is ∙ sym (append_assoc pre s.front (drop s.skip es));
  count = s.count;
}

pub HoldAll-front :
    (slots : List (List ℕ)) (front back : List Entry)
    → HoldAll slots 0 (front ++ back)
    → HoldAll slots 0 front
HoldAll-front slots front back held =
    subst (HoldAll slots 0) (take-append_self front back)
      (HoldAll-take slots (length front) 0 (front ++ back) held)

pub FitAll-front : (front back : List Entry) → FitAll (front ++ back) → FitAll front
FitAll-front front back fits =
    subst FitAll (take-append_self front back) (FitAll-take (length front) (front ++ back) fits)
