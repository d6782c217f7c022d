-- ===== src/Goraft/Disk/Slots.antt =====
-- What the slots of the metadata file hold after entries are written, and what is read from them.
use go_distributed_system.Base.{
  ℕ, zero, suc, ◌+◌, ◌-◌, ◌^◌, ◌<◌, ◌≤◌, ◌≡◌, ◌≢◌, inl, inr, refl, sym, ◌∙◌, ap, subst, Bool, false,
  ◌&&◌, none, some, List, [], ◌∷◌, ◌++◌, length, get_elem?, take, drop, replicate, map, Bool-cases,
  Option-cases, some_inj, if_true, if_false, ltb, arith,
}
use go_distributed_system.Goraft.State.{Entry}
use go_distributed_system.Goraft.Disk.{
  entry_header, entry_size, put_entry, put_slot, write_entries, new_count, new_log_offset,
  write_slots, read_entry, read_entries,
}
use go_distributed_system.Goraft.Disk.Bytes.{read_entry-put_entry}

-- An entry as the file keeps it.
abbrev pub stored_entry : Entry → Entry
stored_entry e = record e { result = none }

-- The slot at i holds the entry.
abbrev pub Holds : List (List ℕ) → ℕ → Entry → Type 0
Holds slots i e =
    (b : List ℕ) × (get_elem? slots i ≡ some b) × (read_entry b ≡ some (stored_entry e))

-- The slots from i on hold the entries.
abbrev pub HoldAll : List (List ℕ) → ℕ → List Entry → Type 0
HoldAll slots i [] = Unit
HoldAll slots i (e ∷ es) = Holds slots i e × HoldAll slots (suc i) es

pub get_elem?-put_slot_self :
    (i : ℕ) (b : List ℕ) (slots : List (List ℕ)) → get_elem? (put_slot i b slots) i ≡ some b
unfolding put_slot
get_elem?-put_slot_self zero b [] = refl
get_elem?-put_slot_self zero b (s ∷ ss) = refl
get_elem?-put_slot_self (suc i) b [] = get_elem?-put_slot_self i b []
get_elem?-put_slot_self (suc i) b (s ∷ ss) = get_elem?-put_slot_self i b ss

-- A slot that was there stays, but for the one that is written.
pub get_elem?-put_slot_other :
    (i j : ℕ) (b : List ℕ) (slots : List (List ℕ)) {c : List ℕ}
    → j ≢ i
    → get_elem? slots j ≡ some c
    → get_elem? (put_slot i b slots) j ≡ some c
unfolding put_slot
get_elem?-put_slot_other i j b [] ne e = ground arith
get_elem?-put_slot_other zero zero b (s ∷ ss) ne e = absurd (ne refl)
get_elem?-put_slot_other zero (suc j) b (s ∷ ss) ne e = e
get_elem?-put_slot_other (suc i) zero b (s ∷ ss) ne e = e
get_elem?-put_slot_other (suc i) (suc j) b (s ∷ ss) ne e =
    get_elem?-put_slot_other i j b ss (λ p. ne (ap suc p)) e

-- Each term is a uint64.
abbrev pub FitAll : List Entry → Type 0
FitAll [] = Unit
FitAll (e ∷ es) = (e.term < 2 ^ 64) × FitAll es

-- What the loop that writes leaves.
pub record Written (i : ℕ) (es : List Entry) (slots slots' : List (List ℕ)) : Type 0 where
  pub new : HoldAll slots' i es
  pub old : (j : ℕ) (b : List ℕ) → j < i → get_elem? slots j ≡ some b → get_elem? slots' j ≡ some b

pub write_entries-Written :
    (i : ℕ) (es : List Entry) (buf : List ℕ) (slots slots' : List (List ℕ))
    → length buf ≡ entry_size
    → FitAll es
    → write_entries i es buf slots ≡ some slots'
    → Written i es slots slots'
unfolding write_entries
write_entries-Written i [] buf slots slots' long fits e = record {
  new = tt;
  old = λ j b lt at_j. subst (λ l. get_elem? l j ≡ some b) (some_inj e) at_j;
}
write_entries-Written i (x ∷ es) buf slots slots' long (small, fits) e =
    elim (Bool-cases (ltb (entry_size - entry_header) (length x.command))) [
      | inl large ↦ cc (sym (if_true none _ large) ∙ e)
      | inr room ↦
          let (reads, long') = read_entry-put_entry x buf long small (ground arith) in
          let bytes = put_entry x buf in
          let rest =
            write_entries-Written (suc i) es bytes (put_slot i bytes slots) slots' long' fits
              (sym (if_false none _ room) ∙ e) in
          record {
            new = (
              (
                bytes,
                rest.old i bytes (omega arith) (get_elem?-put_slot_self i bytes slots),
                reads,
              ),
              rest.new,
            );
            old = λ j b lt at_j.
                rest.old j b (omega arith)
                  (get_elem?-put_slot_other i j bytes slots (λ p. omega arith) at_j);
          }
    ]

-- A command that is too large is a panic, and else the loop runs through.
abbrev pub Writable : List Entry → Type 0
Writable [] = Unit
Writable (e ∷ es) = (length e.command ≤ 112) × Writable es

pub write_entries-eq-some :
    (i : ℕ) (es : List Entry) (buf : List ℕ) (slots : List (List ℕ))
    → Writable es
    → (slots' : List (List ℕ)) × (write_entries i es buf slots ≡ some slots')
unfolding write_entries
write_entries-eq-some i [] buf slots ok = (slots, refl)
write_entries-eq-some i (x ∷ es) buf slots (fits, ok) =
    let room : ltb (entry_size - entry_header) (length x.command) ≡ false = ground arith in
    let (slots', e) =
      write_entries-eq-some (suc i) es (put_entry x buf) (put_slot i (put_entry x buf) slots) ok in
    (slots', if_false none _ room ∙ e)

pub Writable-drop : (k : ℕ) (es : List Entry) → Writable es → Writable (drop k es)
Writable-drop zero es fits = fits
Writable-drop (suc k) [] fits = tt
Writable-drop (suc k) (e ∷ es) (_, fits) = Writable-drop k es fits

pub write_slots-eq-some :
    (write_log : Bool) (n : ℕ) (log : List Entry) (slots : List (List ℕ))
    → Writable log
    → (slots' : List (List ℕ)) × (write_slots write_log n log slots ≡ some slots')
unfolding write_slots
write_slots-eq-some write_log n log slots fits =
    let count = new_count write_log n log in
    let offset = new_log_offset log count in
    elim (Bool-cases (write_log && ltb 0 count)) [
      | inl more ↦
          let (slots', e) =
            write_entries-eq-some offset (drop offset log) (replicate entry_size 0) slots
              (Writable-drop offset log fits) in
          (slots', if_true _ _ more ∙ e)
      | inr nothing ↦ (slots, if_false _ _ nothing)
    ]

HoldAll-tail :
    (s : List ℕ) (slots : List (List ℕ)) (i : ℕ) (es : List Entry)
    → HoldAll (s ∷ slots) (suc i) es
    → HoldAll slots i es
HoldAll-tail s slots i [] held = tt
HoldAll-tail s slots i (e ∷ es) (here, held) = (here, HoldAll-tail s slots (suc i) es held)

-- Slots that keep what they hold up to an index.
pub HoldAll-kept :
    (slots slots' : List (List ℕ)) (n i : ℕ) (es : List Entry)
    → ((j : ℕ) (b : List ℕ) → j < n → get_elem? slots j ≡ some b → get_elem? slots' j ≡ some b)
    → i + length es ≤ n
    → HoldAll slots i es
    → HoldAll slots' i es
HoldAll-kept slots slots' n i [] old le held = tt
HoldAll-kept slots slots' n i (e ∷ es) old le ((b, at_i, reads), held) = (
  (b, old i b (omega arith) at_i, reads),
  HoldAll-kept slots slots' n (suc i) es old (omega arith) held,
)

pub HoldAll-take :
    (slots : List (List ℕ)) (k i : ℕ) (es : List Entry)
    → HoldAll slots i es
    → HoldAll slots i (take k es)
HoldAll-take slots zero i es held = tt
HoldAll-take slots (suc k) i [] held = tt
HoldAll-take slots (suc k) i (e ∷ es) (here, held) = (here, HoldAll-take slots k (suc i) es held)

-- The entries up to k are held, and those from k on.
pub HoldAll-join :
    (slots : List (List ℕ)) (k i : ℕ) (es : List Entry)
    → HoldAll slots i (take k es)
    → HoldAll slots (i + k) (drop k es)
    → HoldAll slots i es
HoldAll-join slots zero i es front back =
    let e : i + 0 ≡ i = omega arith in subst (λ n. HoldAll slots n es) e back
HoldAll-join slots (suc k) i [] front back = tt
HoldAll-join slots (suc k) i (x ∷ es) (here, front) back =
    let e : i + suc k ≡ suc i + k = omega arith in
    (here, HoldAll-join slots k (suc i) es front (subst (λ n. HoldAll slots n (drop k es)) e back))

pub FitAll-drop : (k : ℕ) (es : List Entry) → FitAll es → FitAll (drop k es)
FitAll-drop zero es fits = fits
FitAll-drop (suc k) [] fits = tt
FitAll-drop (suc k) (e ∷ es) (_, fits) = FitAll-drop k es fits

pub FitAll-take : (k : ℕ) (es : List Entry) → FitAll es → FitAll (take k es)
FitAll-take zero es fits = tt
FitAll-take (suc k) [] fits = tt
FitAll-take (suc k) (e ∷ es) (small, fits) = (small, FitAll-take k es fits)

pub FitAll-append : (xs ys : List Entry) → FitAll xs → FitAll ys → FitAll (xs ++ ys)
FitAll-append [] ys fits more = more
FitAll-append (x ∷ xs) ys (small, fits) more = (small, FitAll-append xs ys fits more)

-- What is read from slots that hold the entries.
pub read_entries-HoldAll :
    (slots : List (List ℕ)) (es : List Entry)
    → HoldAll slots 0 es
    → read_entries (length es) slots ≡ some (map stored_entry es)
unfolding read_entries
read_entries-HoldAll slots [] held = refl
read_entries-HoldAll [] (e ∷ es) ((b, at_0, _), _) = ground arith
read_entries-HoldAll (s ∷ slots) (e ∷ es) ((b, at_0, reads), held) =
    let reads' : read_entry s ≡ some (stored_entry e) =
      subst (λ z. read_entry z ≡ some (stored_entry e)) (sym (some_inj at_0)) reads in
    rw (reads', read_entries-HoldAll slots es (HoldAll-tail s slots 0 es held))

-- Slots that end before the last entry cannot be read.
pub read_entries-short :
    (n : ℕ) (slots : List (List ℕ)) → length slots < n → read_entries n slots ≡ none
unfolding read_entries
read_entries-short zero slots lt = absurd (omega arith)
read_entries-short (suc n) [] lt = refl
read_entries-short (suc n) (b ∷ slots) lt = elim (Option-cases (read_entry b)) [
  | inl e ↦ rw e
  | inr (x, e) ↦ rw (e, read_entries-short n slots (omega arith))
]
