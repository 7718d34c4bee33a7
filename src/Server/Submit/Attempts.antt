-- ===== src/Server/Submit/Attempts.antt =====
-- How often a node is asked, and what is known when a signature is returned.
use ore_pool.Prelude.{
  ℕ, zero, suc, ◌+◌, ◌*◌, ◌≤◌, ◌<◌, ◌≡◌, ◌≢◌, ok, true, arith, ◌↔◌, Result-cases, Bool-cases, inl,
  inr,
}
use ore_pool.Server.Rpc.{Rpc, Signature}
use ore_pool.Server.Submit.{
  confirm_loop, confirm_transaction, send_loop, submit_and_confirm_transaction,
}
use ore_pool.Server.Validate.{Transaction}

module _ {R : Type 0} (rpc : Rpc R) where
  -- The node after it was asked `n` times about a signature.
  abbrev pub asked : ℕ → Signature → R → R
  asked zero sig r = r
  asked (suc n) sig r = asked n sig (rpc.confirm_transaction_with_commitment sig r).1

  -- The node's answer to question `n` is yes.
  abbrev pub Confirms : ℕ → Signature → R → Type 0
  Confirms n sig r = (rpc.confirm_transaction_with_commitment sig (asked n sig r)).0 ≡ ok true

  -- A confirmation that is not the first answer comes later.
  later :
      (left : ℕ) (sig : Signature) (r : R)
      → (rpc.confirm_transaction_with_commitment sig r).0 ≢ ok true
      → ((n : ℕ) × (n < suc left) × Confirms n sig r)
      → (n : ℕ) × (n < left) × Confirms n sig (rpc.confirm_transaction_with_commitment sig r).1
  later left sig r not_now (zero, lt, c) = absurd (not_now c)
  later left sig r not_now (suc n, lt, c) = (n, omega (arith, lt), c)

  -- A confirmation within the attempts that are left ends the loop, and nothing else does.
  confirm_loop_iff :
      (left : ℕ) (sig : Signature) (r : R)
      → ((confirm_loop rpc left sig r).0 ≡ true) ↔ ((n : ℕ) × (n < left) × Confirms n sig r)
  unfolding confirm_loop
  confirm_loop_iff zero sig r = (λ h. absurd (ground arith), λ p. absurd (omega (arith, p.1)))
  confirm_loop_iff (suc left) sig r =
      let answer = rpc.confirm_transaction_with_commitment sig r in
      let ih = confirm_loop_iff left sig answer.1 in
      elim (Result-cases answer.0) [
        | inl (b, e) ↦ elim (Bool-cases b) [
          | inl yea ↦ (λ h. (0, omega arith, ground (arith, e, yea)), λ p. ground (arith, e, yea))
          | inr nay ↦ (
            λ h. let (n, lt, c) = ih.0 (ground (arith, e, nay, h)) in (suc n, omega (arith, lt), c),
            λ p.
                ground
                  (arith, e, nay, ih.1 (later left sig r (λ now. ground (arith, e, nay, now)) p)),
          )
        ]
        | inr (x, e) ↦ (
          λ h. let (n, lt, c) = ih.0 (ground (arith, e, h)) in (suc n, omega (arith, lt), c),
          λ p. ground (arith, e, ih.1 (later left sig r (λ now. ground (arith, e, now)) p)),
        )
      ]

  -- The loop asks at most as often as there are attempts left.
  confirm_loop_uses :
      (used : R → ℕ)
      → ((sig : Signature) (r : R)
          → used (rpc.confirm_transaction_with_commitment sig r).1 ≤ used r + 1)
      → (left : ℕ) (sig : Signature) (r : R) → used (confirm_loop rpc left sig r).1 ≤ used r + left
  unfolding confirm_loop
  confirm_loop_uses used one zero sig r = omega arith
  confirm_loop_uses used one (suc left) sig r =
      let answer = rpc.confirm_transaction_with_commitment sig r in
      ground (arith, one sig r, confirm_loop_uses used one left sig answer.1)

  -- A transaction counts as confirmed exactly when the node says so in one of its first ten answers;
  -- answers that fail are passed over.
  pub confirm_transaction_iff :
      (sig : Signature) (r : R)
      → ((confirm_transaction rpc sig r).0 ≡ ok tt) ↔ ((n : ℕ) × (n < 10) × Confirms n sig r)
  unfolding confirm_transaction
  confirm_transaction_iff sig r =
      let ih = confirm_loop_iff 10 sig r in
      (λ h. ih.0 (ground (arith, h)), λ p. ground (arith, ih.1 p))

  -- What a signature that the loop returns is known by.
  pub record Lands (tx : Transaction) (sig : Signature) (after : R) : Type 0 where
    pub asked_at : R
    pub sent : (rpc.send_transaction tx asked_at).0 ≡ ok sig
    pub confirmed : (confirm_transaction rpc sig (rpc.send_transaction tx asked_at).1).0 ≡ ok tt
    pub ended : after ≡ (confirm_transaction rpc sig (rpc.send_transaction tx asked_at).1).1

  send_loop-Lands :
      (left : ℕ) (tx : Transaction) (sig : Signature) (r r' : R)
      → send_loop rpc left tx r ≡ (ok sig, r')
      → Lands tx sig r'
  unfolding send_loop
  send_loop-Lands zero tx sig r r' h = absurd (ground arith)
  send_loop-Lands (suc left) tx sig r r' h =
      let sent = rpc.send_transaction tx r in
      elim (Result-cases sent.0) [
        | inl (s, e) ↦
            let confirmed = confirm_transaction rpc s sent.1 in
            elim (Result-cases confirmed.0) [
              | inl (u, e') ↦
                  let same : s ≡ sig = ground (arith, e, e', h) in
                  record {
                    asked_at = r;
                    sent = ground (arith, e, same);
                    confirmed = rw (← same) e';
                    ended = rw (← same) (ground (arith, e, e', h));
                  }
              | inr (x, e') ↦ send_loop-Lands left tx sig confirmed.1 r' (ground (arith, e, e', h))
            ]
        | inr (x, e) ↦ send_loop-Lands left tx sig sent.1 r' (ground (arith, e, h))
      ]

  -- A signature that is returned was given by the node for this transaction, and the node confirmed
  -- it after that.
  pub submit_and_confirm_transaction-Lands :
      (tx : Transaction) (sig : Signature) (r r' : R)
      → submit_and_confirm_transaction rpc tx r ≡ (ok sig, r')
      → Lands tx sig r'
  unfolding submit_and_confirm_transaction
  submit_and_confirm_transaction-Lands tx sig r r' h = send_loop-Lands 5 tx sig r r' h

  confirm_transaction_uses :
      (used : R → ℕ)
      → ((sig : Signature) (r : R)
          → used (rpc.confirm_transaction_with_commitment sig r).1 ≤ used r + 1)
      → (sig : Signature) (r : R) → used (confirm_transaction rpc sig r).1 ≤ used r + 10
  unfolding confirm_transaction
  confirm_transaction_uses used one sig r = ground (arith, confirm_loop_uses used one 10 sig r)

  send_loop_uses :
      (used : R → ℕ)
      → ((tx : Transaction) (r : R) → used (rpc.send_transaction tx r).1 ≤ used r + 1)
      → ((sig : Signature) (r : R)
          → used (rpc.confirm_transaction_with_commitment sig r).1 ≤ used r + 1)
      → (left : ℕ) (tx : Transaction) (r : R)
      → used (send_loop rpc left tx r).1 ≤ used r + left * 11
  unfolding send_loop
  send_loop_uses used one one' zero tx r = omega arith
  send_loop_uses used one one' (suc left) tx r =
      let sent = rpc.send_transaction tx r in
      elim (Result-cases sent.0) [
        | inl (s, e) ↦
            let confirmed = confirm_transaction rpc s sent.1 in
            elim (Result-cases confirmed.0) [
              | inl (u, e') ↦
                  ground (arith, e, e', one tx r, confirm_transaction_uses used one' s sent.1)
              | inr (x, e') ↦ ground (
                arith,
                e,
                e',
                one tx r,
                confirm_transaction_uses used one' s sent.1,
                send_loop_uses used one one' left tx confirmed.1,
              )
            ]
        | inr (x, e) ↦ ground (arith, e, one tx r, send_loop_uses used one one' left tx sent.1)
      ]

  -- However the node answers, at most 55 requests are made before there is a signature or an error,
  -- if each call is one request.
  pub submit_and_confirm_transaction_uses :
      (used : R → ℕ)
      → ((tx : Transaction) (r : R) → used (rpc.send_transaction tx r).1 ≤ used r + 1)
      → ((sig : Signature) (r : R)
          → used (rpc.confirm_transaction_with_commitment sig r).1 ≤ used r + 1)
      → (tx : Transaction) (r : R) → used (submit_and_confirm_transaction rpc tx r).1 ≤ used r + 55
  unfolding submit_and_confirm_transaction
  submit_and_confirm_transaction_uses used one one' tx r = send_loop_uses used one one' 5 tx r
