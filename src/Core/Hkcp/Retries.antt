-- ===== src/Core/Hkcp/Retries.antt =====
-- core/hkcp.c: a node that cannot be reached is tried a number of times, and then given up.
use hakit.Base.{
  ℕ, zero, suc, ◌+◌, ◌≤◌, ◌<◌, ◌≡◌, ◌≢◌, inl, inr, refl, subst, false, none, some, ◌==◌, ltb, arith,
  Bool-cases,
}
use hakit.Core.Hkcp.{
  Node, Hkcp, node_at, put, node_connect, node_connect_first, connect_retries, call_connect,
  add_timer,
}
use hakit.Core.Hkcp.Timers.{node_at-put_self}
use hakit.Core.Hkcp.Sound.{tried, wait, node_connect-over, node_connect-new, node_connect-again}

-- The timer of the node at place `i` fires `rounds` times, and no connection succeeds.
unfoldable pub fail : ℕ → Hkcp → ℕ → Hkcp
fail zero h i = h
fail (suc rounds) h i = elim (node_at h i) [
  | none ↦ h
  | some n ↦ fail rounds (node_connect false 0 h i n).1 i
]

-- The node is there, and was tried so often.
abbrev pub Tried : Hkcp → ℕ → ℕ → Type 0
Tried h i attempts =
    (n : Node) × (node_at h i ≡ some n) × (n.connect_attempts ≡ attempts) × (n.timeout_tag ≢ 0)

fail-none : (rounds : ℕ) (h : Hkcp) (i : ℕ) → node_at h i ≡ none → fail rounds h i ≡ h
unfolding fail
fail-none zero h i gone = refl
fail-none (suc rounds) h i gone = rw (fail, gone) refl

fail-Tried :
    (rounds : ℕ) (h : Hkcp) (i a : ℕ)
    → Tried h i a
    → a ≤ connect_retries
    → (a + rounds ≤ connect_retries → Tried (fail rounds h i) i (a + rounds))
      × (connect_retries < a + rounds → node_at (fail rounds h i) i ≡ none)
unfolding fail
fail-Tried zero h i a (n, at, e, has) small =
    (λ within. (n, at, omega (arith, e), has), λ over. absurd (omega arith))
fail-Tried (suc rounds) h i a (n, at, e, has) small =
    elim (Bool-cases (ltb connect_retries (n.connect_attempts + 1))) [
      | inl over ↦
          let gone : node_at (put h i none) i ≡ none = node_at-put_self h i n none at in
          rw (fail, at, node_connect-over 0 h i n over)
            (
              λ within. absurd (ground (arith, over, e, within)),
              λ _. rw (fail-none rounds (put h i none) i gone) gone,
            )
      | inr more ↦
          let (within, beyond) =
            fail-Tried rounds (put h i (some (tried n))) i (suc a)
              (tried n, node_at-put_self h i n (some (tried n)) at, omega (arith, e), has)
              (ground (arith, more, e)) in
          rw (fail, at, node_connect-again 0 h i n more has)
            (
              λ w.
                  subst (λ k. Tried (fail rounds (put h i (some (tried n))) i) i k)
                    {x = suc a + rounds} {y = a + suc rounds} (omega arith) (within (omega arith)),
              λ b. beyond (omega arith),
            )
    ]

-- A node that was advertised and cannot be reached: it is in the table as long as its timer fired less
-- than HKCP_NODE_CONNECT_RETRIES times after the first attempt, tried once more each time, and it is
-- removed when the timer fired so often.
pub give_up :
    (h : Hkcp) (i tag rounds : ℕ) (n : Node)
    → node_at h i ≡ some n
    → tag ≢ 0
    → (rounds < connect_retries
        → Tried (fail rounds (node_connect_first false tag h i n).1 i) i (1 + rounds))
      × (connect_retries ≤ rounds
          → node_at (fail rounds (node_connect_first false tag h i n).1 i) i ≡ none)
unfolding node_connect_first
give_up h i tag rounds n at nz = elim (Bool-cases (tag == 0)) [
  | inl z ↦ absurd (ground (arith, z, nz))
  | inr nz' ↦
      let first : Node = record n { timeout_tag = 0; connect_attempts = 0 } in
      let (within, beyond) =
        fail-Tried rounds
          (add_timer (wait tag call_connect i)
            (put h i (some (record (tried first) { timeout_tag = tag }))))
          i 1
          (rw nz'
            (record (tried first) { timeout_tag = tag }, node_at-put_self h i n _ at, refl, nz))
          (omega arith) in
      rw (node_connect_first, node_connect-new tag h i first refl refl)
        (λ w. within (omega arith), λ b. beyond (omega arith))
]
