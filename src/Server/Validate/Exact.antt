-- ===== src/Server/Validate/Exact.antt =====
-- Which transactions `validate_attribution` accepts, exactly, and what it does not look at.
use mathlib.Core.Path.{subst}
use ore_pool.Prelude.{
  ℕ, ◌-◌, ◌≤◌, ◌≡◌, ◌↔◌, refl, sym, ◌∙◌, ok, ◌>>◌, guard, List, [], ◌∷◌, ◌++◌, some, length,
  get_elem?, take, All, arith, ltb, length-append, ap,
}
use ore_pool.Prelude.Words.{from_le_bytes}
use ore_pool.Prelude.Int.{ℤ}
use ore_pool.Api.State.{Addresses, Pubkey}
use ore_pool.Api.Instruction.{read_amount}
use ore_pool.Server.Error.{internal}
use ore_pool.Server.Aggregator.{as_u64}
use ore_pool.Server.Validate.{
  CompiledInstruction, Transaction, returns, last?, check_compute_budget, check_attribution,
  check_amount, validate_attribution, validate_instructions,
}

-- The instruction runs the given program.
abbrev pub Runs : List Pubkey → Pubkey → CompiledInstruction → Type 0
Runs keys program ix = get_elem? keys ix.program_id_index ≡ some program

-- A tag, and the eight bytes of the lifetime earnings.
abbrev pub Carries : List ℕ → ℤ → Type 0
Carries [] total_balance = ⊥
Carries (tag ∷ amount) total_balance =
    (length amount ≡ 8) × (from_le_bytes amount ≡ as_u64 total_balance)

-- At least two compute budget instructions, and then one of the pool program with that amount.
pub record IsAttribution (ids : Addresses) (tx : Transaction) (total_balance : ℤ) : Type 0 where
  pub budget : List CompiledInstruction
  pub last : CompiledInstruction
  pub split : tx.instructions ≡ budget ++ last ∷ []
  pub two : 2 ≤ length budget
  pub budgets : All (Runs tx.account_keys ids.compute_budget) budget
  pub runs_pool : Runs tx.account_keys ids.pool_program last
  pub carries : Carries last.payload total_balance

module _ (ids : Addresses) where
  check_compute_budget_iff :
      (keys : List Pubkey) (ixs : List CompiledInstruction)
      → (check_compute_budget ids keys ixs ≡ ok tt) ↔ All (Runs keys ids.compute_budget) ixs
  unfolding check_compute_budget
  check_compute_budget_iff keys [] = (λ _. tt, λ _. refl)
  check_compute_budget_iff keys (ix ∷ ixs) =
      let ih = check_compute_budget_iff keys ixs in
      (λ h. (ground arith, ih.0 (ground arith)), λ h. ground (arith, ih.1 h.1))

  check_amount_iff : (p : List ℕ) (t : ℤ) → (check_amount p t ≡ ok tt) ↔ Carries p t
  unfolding check_amount read_amount
  check_amount_iff [] t = (λ h. cc, λ h. absurd h)
  check_amount_iff (tag ∷ amount) t = (λ h. (ground arith, ground arith), λ h. ground arith)

  check_attribution_iff :
      (keys : List Pubkey) (last : CompiledInstruction) (t : ℤ)
      → (check_attribution ids keys last t ≡ ok tt)
        ↔ (Runs keys ids.pool_program last × Carries last.payload t)
  unfolding check_attribution
  check_attribution_iff keys last t =
      let carries = check_amount_iff last.payload t in
      (λ h. (ground arith, carries.0 (ground arith)), λ h. ground (arith, carries.1 h.1))

take_init :
    (xs : List CompiledInstruction) (x : CompiledInstruction) → take (length xs) (xs ++ x ∷ []) ≡ xs
take_init [] x = refl
take_init (y ∷ ys) x = ap (λ l. y ∷ l) (take_init ys x)

last_snoc :
    (xs : List CompiledInstruction) (x : CompiledInstruction) → last? (xs ++ x ∷ []) ≡ some x
last_snoc [] x = refl
last_snoc (y ∷ []) x = refl
last_snoc (y ∷ z ∷ zs) x = last_snoc (z ∷ zs) x

-- Every list that is not empty has a last entry.
snoc :
    (x : CompiledInstruction) (xs : List CompiledInstruction)
    → (ys : List CompiledInstruction) × (y : CompiledInstruction) × (x ∷ xs ≡ ys ++ y ∷ [])
snoc x [] = ([], x, refl)
snoc x (x' ∷ xs) = let (ys, y, e) = snoc x' xs in (x ∷ ys, y, ap (λ l. x ∷ l) e)

module _ (ids : Addresses) where
  -- On a list with a last entry the code checks the budget before it and then that entry.
  validate_snoc :
      (keys : List Pubkey) (budget ixs : List CompiledInstruction) (last : CompiledInstruction)
      (t : ℤ)
      → ixs ≡ budget ++ last ∷ []
      → validate_instructions ids keys ixs t
        ≡ returns (
            guard (ltb 1 (length budget)) (
              internal
                "attribution transactions must contain at least two compute budget instructions")
            >> (check_compute_budget ids keys budget >> check_attribution ids keys last t))
  unfolding validate_instructions
  validate_snoc keys budget [] last t e =
      absurd (omega (arith, ap length e, length-append {0} budget (last ∷ [])))
  validate_snoc keys budget (x ∷ xs) last t e =
      let n : length (x ∷ xs) - 1 ≡ length budget =
        omega (arith, ap length e, length-append {0} budget (last ∷ [])) in
      let init : take (length budget) (x ∷ xs) ≡ budget = rw e (take_init budget last) in
      let end : last? (x ∷ xs) ≡ some last =
        subst (λ l. last? l ≡ some last) (sym e) (last_snoc budget last) in
      rw (n, init, end)

  -- The description, over the parts of a transaction.
  validate_instructions_sound :
      (keys : List Pubkey) (ixs : List CompiledInstruction) (t : ℤ)
      → validate_instructions ids keys ixs t ≡ returns (ok tt)
      → IsAttribution ids (record { account_keys = keys; instructions = ixs }) t
  unfolding validate_instructions
  validate_instructions_sound keys [] t h = absurd (ground arith)
  validate_instructions_sound keys (x ∷ xs) t h =
      let (budget, last, e) = snoc x xs in
      let h' = sym (validate_snoc keys budget (x ∷ xs) last t e) ∙ h in
      let attribution = (check_attribution_iff ids keys last t).0 (ground (arith, h')) in
      record {
        budget = budget;
        last = last;
        split = e;
        two = ground (arith, h');
        budgets = (check_compute_budget_iff ids keys budget).0 (ground (arith, h'));
        runs_pool = attribution.0;
        carries = attribution.1;
      }

  -- `validate_attribution` accepts exactly the transactions of at least two compute budget
  -- instructions and then one instruction of the pool program, whose payload is a tag and the
  -- eight bytes of the lifetime earnings.
  pub validate_attribution_iff :
      (tx : Transaction) (t : ℤ)
      → (validate_attribution ids tx t ≡ returns (ok tt)) ↔ IsAttribution ids tx t
  unfolding validate_attribution
  validate_attribution_iff tx t = (
    validate_instructions_sound tx.account_keys tx.instructions t,
    λ a.
        validate_snoc tx.account_keys a.budget tx.instructions a.last t a.split
        ∙ ground (
          arith,
          a.two,
          (check_compute_budget_iff ids tx.account_keys a.budget).1 a.budgets,
          (check_attribution_iff ids tx.account_keys a.last t).1 (a.runs_pool, a.carries),
        ),
  )

  -- It reads neither the tag of the last instruction nor the accounts that it names: with those
  -- exchanged for any others, the answer is the same.
  pub validate_attribution_blind :
      (keys : List Pubkey) (budget : List CompiledInstruction) (i tag tag' : ℕ)
      (accounts accounts' amount : List ℕ) (t : ℤ)
      → let end = λ (a : List ℕ) (g : ℕ).
        budget ++ record { program_id_index = i; accounts = a; payload = g ∷ amount } ∷ [] in
        validate_attribution ids (record { account_keys = keys; instructions = end accounts tag }) t
        ≡ validate_attribution ids
            (record { account_keys = keys; instructions = end accounts' tag' })
            t
  unfolding validate_attribution check_attribution check_amount
  validate_attribution_blind keys budget i tag tag' accounts accounts' amount t =
      let last = λ (a : List ℕ) (g : ℕ).
        let l : CompiledInstruction = record {
          program_id_index = i;
          accounts = a;
          payload = g ∷ amount;
        } in
        l in
      validate_snoc keys budget _ (last accounts tag) t refl
      ∙ sym (validate_snoc keys budget _ (last accounts' tag') t refl)
