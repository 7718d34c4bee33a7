-- ===== src/Server/Rewards/Owed.antt =====
-- server/src/database.rs: what the records of the members promise, and a rise of it.
use ore_pool.Prelude.{ℕ, ◌+◌, ◌≤◌, ◌≡◌, refl, [], ◌∷◌, arith, All, Result, ok}
use ore_pool.Prelude.Int.{pos, pos_part}
use ore_pool.Server.Database.{MemberRow, Members, write_member_total_balances}
use ore_pool.Server.Error.{Error}
use ore_pool.Server.Rewards.{Distribution}
use ore_pool.Server.Attribution.Round.{addresses, IsUnique}

-- What the records of all members promise together.
unfoldable pub owed : Members → ℕ
owed [] = 0
owed (r ∷ rs) = pos_part r.total_balance + owed rs

-- No record is below zero.
abbrev pub IsCredited : MemberRow → Type 0
IsCredited r = (n : ℕ) × (r.total_balance ≡ pos n)

-- The same members in the same places, none with less than before.
abbrev pub Rises : Members → Members → Type 0
Rises [] [] = Unit {0}
Rises [] (r' ∷ rs') = ⊥
Rises (r ∷ rs) [] = ⊥
Rises (r ∷ rs) (r' ∷ rs') =
    (r'.address ≡ r.address)
    × (r'.authority ≡ r.authority)
    × (pos_part r.total_balance ≤ pos_part r'.total_balance)
    × Rises rs rs'

pub record Credits (before after : Members) (n : ℕ) : Type 0 where
  pub same : addresses after ≡ addresses before
  pub credited : All IsCredited after
  pub bounded : owed after ≤ owed before + n
  pub rises : Rises before after

stays-Rises : (rs : Members) → Rises rs rs
stays-Rises [] = tt
stays-Rises (r ∷ rs) = (refl, refl, omega arith, stays-Rises rs)

Rises-trans : (a b c : Members) → Rises a b → Rises b c → Rises a c
Rises-trans [] [] [] p q = tt
Rises-trans [] [] (z ∷ c) p q = elim q [ ]
Rises-trans [] (y ∷ b) c p q = elim p [ ]
Rises-trans (x ∷ a) [] c p q = elim p [ ]
Rises-trans (x ∷ a) (y ∷ b) [] p q = elim q [ ]
Rises-trans (x ∷ a) (y ∷ b) (z ∷ c) p q = (
  ground (arith, p.0, q.0),
  ground (arith, p.1, q.1),
  omega (arith, p.2, q.2),
  Rises-trans a b c p.3 q.3,
)

pub stays-Credits : (rs : Members) → All IsCredited rs → Credits rs rs 0
stays-Credits rs h = record {
  same = refl;
  credited = h;
  bounded = omega arith;
  rises = stays-Rises rs;
}

pub atmost : (a b : Members) (m n : ℕ) → m ≤ n → Credits a b m → Credits a b n
atmost a b m n le h = record {
  same = h.same;
  credited = h.credited;
  bounded = omega (arith, le, h.bounded);
  rises = h.rises;
}

pub Credits-trans :
    (a b c : Members) (m n : ℕ) → Credits a b m → Credits b c n → Credits a c (m + n)
Credits-trans a b c m n p q = record {
  same = ground (arith, p.same, q.same);
  credited = q.credited;
  bounded = omega (arith, p.bounded, q.bounded);
  rises = Rises-trans a b c p.rises q.rises;
}

pub same-IsUnique : (a b : Members) → addresses b ≡ addresses a → IsUnique a → IsUnique b
same-IsUnique [] [] e u = tt
same-IsUnique [] (y ∷ b) e u = absurd (ground (arith, e))
same-IsUnique (x ∷ a) [] e u = absurd (ground (arith, e))
same-IsUnique (x ∷ a) (y ∷ b) e u =
    (ground (arith, e, u.0), same-IsUnique a b (ground (arith, e)) u.1)

-- What is relied on of the database's answer to a batch: it may fail for any reason, and then nothing
-- is written; where it succeeds, the statements of the batch were run.
abbrev pub IsWriting : (Members → Distribution → Result Error Members) → Type 0
IsWriting write =
    (rs : Members) (d : Distribution) (rs' : Members)
    → write rs d ≡ ok rs'
    → write_member_total_balances rs d ≡ ok rs'
