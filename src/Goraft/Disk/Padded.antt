-- ===== src/Goraft/Disk/Padded.antt =====
-- goraft/raft.go: the file of a server that never wrote its first entry, the blank one. A write behind
-- it leaves a slot of zeros in its place, which is read as a blank entry.
use go_distributed_system.Base.{
  ℕ, zero, suc, ◌-◌, ◌≤◌, ◌≡◌, inl, inr, refl, sym, ◌∙◌, ap, subst, Bool, true, false, some, List,
  [], ◌∷◌, length, take, drop, replicate, get_elem?_in_range, drop_step, Bool-cases, some_inj,
  if_true, if_false, ltb, arith,
}
use go_distributed_system.Goraft.State.{Entry}
use go_distributed_system.Goraft.Disk.{
  entry_size, put_slot, write_entries, new_count, new_log_offset, write_slots,
}
use go_distributed_system.Goraft.Disk.Slots.{HoldAll, FitAll}
use go_distributed_system.Goraft.Disk.Restart.{take_all, untouched_count, persist_slots}

abbrev pub zero_slot : List ℕ
zero_slot = replicate entry_size 0

-- The slots, and a slot of zeros where there is none.
unfoldable pub padded : List (List ℕ) → List (List ℕ)
padded [] = zero_slot ∷ []
padded (s ∷ ss) = s ∷ ss

padded-HoldAll :
    (slots : List (List ℕ)) (log : List Entry) → HoldAll slots 0 log → HoldAll (padded slots) 0 log
unfolding padded
padded-HoldAll [] [] held = tt
padded-HoldAll [] (e ∷ log) ((b, at_0, _), _) = ground arith
padded-HoldAll (s ∷ ss) log held = held

write_entries-padded :
    (i : ℕ) (log : List Entry) (buf : List ℕ)
    → 1 ≤ length log
    → write_entries i log buf [] ≡ write_entries i log buf (zero_slot ∷ [])
unfolding write_entries put_slot
write_entries-padded i [] buf le = absurd (omega arith)
write_entries-padded zero (e ∷ es) buf le = refl
write_entries-padded (suc i) (e ∷ es) buf le = refl

-- A write keeps the entries that the file held, with the slot of zeros for the first.
pub write_slots-padded :
    (write_log : Bool) (n : ℕ) (log : List Entry) (slots slots' : List (List ℕ))
    → FitAll log
    → HoldAll (padded slots) 0 (take (untouched_count write_log n log) log)
    → write_slots write_log n log slots ≡ some slots'
    → HoldAll (padded slots') 0 log
unfolding padded write_slots new_log_offset
write_slots-padded write_log n log (s ∷ ss) slots' fits held e =
    padded-HoldAll slots' log (persist_slots write_log n log (s ∷ ss) slots' fits held e)
write_slots-padded write_log n [] [] slots' fits held e = tt
write_slots-padded false n (x ∷ log) [] slots' fits held e =
    subst (λ l. HoldAll (padded l) 0 (x ∷ log)) (some_inj e)
      (subst (HoldAll (zero_slot ∷ []) 0) (take_all (x ∷ log)) held)
write_slots-padded true n (x ∷ log) [] slots' fits held e =
    let count = new_count true n (x ∷ log) in
    let offset = suc (length log) - count in
    elim (Bool-cases (ltb 0 count)) [
      | inl more ↦
          let (y, at_y) = get_elem?_in_range (x ∷ log) offset (ground arith) in
          let rest : 1 ≤ length (drop offset (x ∷ log)) =
            omega (arith, ap length (drop_step offset (x ∷ log) at_y)) in
          padded-HoldAll slots' (x ∷ log) (
            persist_slots true n (x ∷ log) (zero_slot ∷ []) slots' fits held (
              rw more (
                sym (write_entries-padded offset (drop offset (x ∷ log)) zero_slot rest)
                ∙ (sym (if_true _ _ more) ∙ e))))
      | inr nothing ↦
          let none_new : suc (length log) - count ≡ suc (length log) = ground arith in
          subst (λ l. HoldAll (padded l) 0 (x ∷ log))
            (some_inj (sym (if_false _ (some []) nothing) ∙ e))
            (subst (HoldAll (zero_slot ∷ []) 0)
              (ap (λ k. take k (x ∷ log)) none_new ∙ take_all (x ∷ log)) held)
    ]
