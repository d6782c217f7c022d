-- ===== src/Kv/Client/Rotation.antt =====
-- The client's search for the leader.
use native.Nat.{ℕᴺ_discrete}
use native.Mathlib.Nat.{mod-eq_of_lt, mod_self}
use go_distributed_system.Base.{
  zero, ◌+◌, ℕ, suc, ◌<◌, ◌≡◌, ◌≢◌, ◌⊎◌, inl, inr, ap, ◌∙◌, true, false, some, List, length,
  get_elem?_in_range, String, ◌+◌, ◌%◌, arith, ◌≤◌, leb, ◌-◌, if◌then◌else◌,
}
use go_distributed_system.Kv.Api.{ok, not_leader}
use go_distributed_system.Kv.Client.{
  KvClient, Attempt, failed, answered, Environment, rotate, success, send,
}

-- An attempt after which the client goes on to the next address.
abbrev pub GoesOn : Attempt → Type 0
GoesOn a = (a ≡ answered not_leader) ⊎ (a ≡ failed false true)

-- The next address, the first one following the last.
after_one :
    (i n : ℕ) → i < n → ((i + 1 < n) × ((i + 1) % n ≡ i + 1)) ⊎ ((i + 1 ≡ n) × ((i + 1) % n ≡ 0))
after_one i n lt = elim (ℕᴺ_discrete (i + 1) n) [
  | yes e ↦ inr (e, rw e (mod_self n))
  | no ne ↦ inl (omega arith, mod-eq_of_lt (omega arith))
]

module _ (env : Environment) (leader : ℕ) (addrs : List String)
    (others : (k i : ℕ) → i ≢ leader → GoesOn (env k i))
    (answers : (k : ℕ) → env k leader ≡ answered ok) where
  send_step :
      (fuel attempt : ℕ) (c : KvClient)
      → c.assumed_leader < length c.addrs
      → c.assumed_leader ≢ leader
      → send (suc fuel) env attempt c ≡ send fuel env (suc attempt) (rotate c)
  unfolding send
  send_step fuel attempt c lt ne =
      let (addr, found) = get_elem?_in_range c.addrs c.assumed_leader lt in
      elim (others attempt c.assumed_leader ne) [
        | inl e ↦ rw (found, e, send)
        | inr e ↦ rw (found, e, send)
      ]

  send_stop :
      (fuel attempt : ℕ) (c : KvClient)
      → c.assumed_leader < length c.addrs
      → c.assumed_leader ≡ leader
      → send (suc fuel) env attempt c ≡ some (c, success)
  unfolding send
  send_stop fuel attempt c lt e =
      let (addr, found) = get_elem?_in_range c.addrs c.assumed_leader lt in
      let yes_ok : env attempt c.assumed_leader ≡ answered ok =
        ap (env attempt) e ∙ answers attempt in
      rw (found, yes_ok, send)

  -- The leader is `d` addresses ahead, the first address following the last.
  send_finds :
      (d fuel attempt : ℕ) (c : KvClient)
      → c.addrs ≡ addrs
      → leader < length addrs
      → c.assumed_leader < length addrs
      → (c.assumed_leader + d ≡ leader) ⊎ (c.assumed_leader + d ≡ leader + length addrs)
      → d < fuel
      → send fuel env attempt c ≡ some (record c { assumed_leader = leader }, success)
  send_finds d zero attempt c same lt lt' dist enough = ground arith
  send_finds zero (suc fuel) attempt c same lt lt' dist enough =
      let e : c.assumed_leader ≡ leader = omega arith in
      send_stop fuel attempt c (rw same lt') e
      ∙ ap (λ i. some (record c { assumed_leader = i }, success)) e
  send_finds (suc d) (suc fuel) attempt c same lt lt' dist enough =
      elim (ℕᴺ_discrete c.assumed_leader leader) [
        | yes e ↦
            send_stop fuel attempt c (rw same lt') e
            ∙ ap (λ i. some (record c { assumed_leader = i }, success)) e
        | no ne ↦
            let step = after_one c.assumed_leader (length addrs) lt' in
            send_step fuel attempt c (rw same lt') ne
            ∙ send_finds d fuel (suc attempt) (rotate c) same lt (rw same (omega arith))
                (rw same (omega arith)) (omega arith)
      ]

  -- Every address but the leader's answers that it is not the leader, or fails by its deadline,
  -- and the leader answers ok: a call that tries as many times as there are addresses succeeds,
  -- wherever it starts, and the client assumes the leader from then on.
  pub leader_found :
      (fuel attempt : ℕ) (c : KvClient)
      → c.addrs ≡ addrs
      → leader < length addrs
      → c.assumed_leader < length addrs
      → length addrs ≤ fuel
      → send fuel env attempt c ≡ some (record c { assumed_leader = leader }, success)
  leader_found fuel attempt c same lt lt' enough =
      let d =
        if leb c.assumed_leader leader
        then leader - c.assumed_leader
        else leader + length addrs - c.assumed_leader in
      send_finds d fuel attempt c same lt lt' (ground arith) (ground arith)
