-- ===== src/Server/Cycle/Commitment.antt =====
-- server/src/aggregator.rs, `attestation`: what the hashed lines say of the contributions.
use mathlib.Core.List.{append_assoc}
use ore_pool.Prelude.{
  ℕ, ◌/◌, ◌%◌, ◌<◌, ◌≡◌, refl, ap, sym, ◌∙◌, List, [], ◌∷◌, ◌++◌, map, All, append_All, zero, suc,
  ltb, ◌==◌, Bool-cases, inl, inr, false, arith,
}
use ore_pool.Prelude.Text.{Text, parse_u64, decimal, decimal_loop, parse_u64-decimal}
use ore_pool.Prelude.Words.{from_le_bytes, u64_mod}
use ore_pool.Api.State.{Pubkey}
use ore_pool.Server.Aggregator.{Contribution, MinerContributions}
use ore_pool.Server.Cycle.Attestation.{hex_digit, hex_string, line, lines}

abbrev pub IsFree : ℕ → Text → Type 0
IsFree c = All (λ (d : ℕ). (d == c) ≡ false)

-- A text is cut at its first separator.
cut_at :
    (c : ℕ) (a b x y : Text) → IsFree c a → IsFree c b → a ++ c ∷ x ≡ b ++ c ∷ y → (a ≡ b) × (x ≡ y)
cut_at c [] [] x y p q e = (refl, ground (arith, e))
cut_at c [] (d ∷ b) x y p q e = absurd (ground (arith, e, q.0))
cut_at c (d ∷ a) [] x y p q e = absurd (ground (arith, e, p.0))
cut_at c (d ∷ a) (d' ∷ b) x y p q e =
    let rest = cut_at c a b x y p.1 q.1 (ground (arith, e)) in (ground (arith, e, rest.0), rest.1)

abbrev pub IsBytes : List ℕ → Type 0
IsBytes = All (λ (b : ℕ). b < 256)

hex_digit_apart : (m n : ℕ) → m < 16 → n < 16 → hex_digit m ≡ hex_digit n → m ≡ n
hex_digit_apart m n p q e = ground (arith, e)

hex_string_apart : (a b : List ℕ) → IsBytes a → IsBytes b → hex_string a ≡ hex_string b → a ≡ b
unfolding hex_string
hex_string_apart [] [] p q e = refl
hex_string_apart [] (y ∷ b) p q e = absurd (ground (arith, e))
hex_string_apart (x ∷ a) [] p q e = absurd (ground (arith, e))
hex_string_apart (x ∷ a) (y ∷ b) p q e =
    let rest = hex_string_apart a b p.1 q.1 (ground (arith, e)) in
    let high =
      hex_digit_apart (x / 16) (y / 16) (omega (arith, p.0)) (omega (arith, q.0))
        (ground (arith, e)) in
    let low = hex_digit_apart (x % 16) (y % 16) (omega arith) (omega arith) (ground (arith, e)) in
    let same : x ≡ y = omega (arith, high, low) in ground (arith, same, rest)

hex_string-IsFree : (bs : List ℕ) → IsBytes bs → IsFree b' ' (hex_string bs)
unfolding hex_string
hex_string-IsFree [] p = tt
hex_string-IsFree (b ∷ bs) p = (ground (arith, p.0), (ground arith, hex_string-IsFree bs p.1))

decimal_loop-IsFree : (fuel n : ℕ) → IsFree 10 (decimal_loop fuel n)
unfolding decimal_loop
decimal_loop-IsFree zero n = tt
decimal_loop-IsFree (suc fuel) n = elim (Bool-cases (ltb n 10)) [
  | inl small ↦ rw small (ground arith, tt)
  | inr large ↦ rw large (
      append_All (λ (d : ℕ). (d == 10) ≡ false) (decimal_loop fuel (n / 10)) _
        (decimal_loop-IsFree fuel (n / 10)) (ground arith, tt))
]

decimal-IsFree : (n : ℕ) → IsFree 10 (decimal n)
unfolding decimal
decimal-IsFree n = decimal_loop-IsFree (suc n) n

decimal_apart : (m n : ℕ) → m < u64_mod → n < u64_mod → decimal m ≡ decimal n → m ≡ n
decimal_apart m n p q e =
    ground (arith, ap parse_u64 e, parse_u64-decimal m p, parse_u64-decimal n q)

-- A line and what follows it, cut by its separators.
cut_line :
    (a h d rest : Text)
    → (a ++ (b' ' ∷ []) ++ h ++ (b' ' ∷ []) ++ d ++ 10 ∷ []) ++ rest
      ≡ a ++ b' ' ∷ (h ++ b' ' ∷ (d ++ 10 ∷ rest))
cut_line a h d rest =
    append_assoc (a ++ (b' ' ∷ []) ++ h ++ (b' ' ∷ []) ++ d) (10 ∷ []) rest
    ∙ append_assoc (a ++ (b' ' ∷ []) ++ h ++ (b' ' ∷ [])) d (10 ∷ rest)
    ∙ append_assoc (a ++ (b' ' ∷ []) ++ h) (b' ' ∷ []) (d ++ 10 ∷ rest)
    ∙ append_assoc (a ++ (b' ' ∷ [])) h (b' ' ∷ (d ++ 10 ∷ rest))
    ∙ append_assoc a (b' ' ∷ []) (h ++ b' ' ∷ (d ++ 10 ∷ rest))

not_empty : (a : Text) (c : ℕ) (x : Text) → ¬ ([] ≡ a ++ c ∷ x)
not_empty [] c x e = ground (arith, e)
not_empty (d ∷ a) c x e = ground (arith, e)

-- What a line says of a contribution.
abbrev pub Attested : Type 0
Attested = Pubkey × List ℕ × ℕ

abbrev pub attested : Contribution → Attested
attested c = (c.member, c.solution.d, from_le_bytes c.solution.n)

-- A digest of bytes, and a nonce that its type holds.
abbrev pub IsTyped : Contribution → Type 0
IsTyped c = IsBytes c.solution.d × (from_le_bytes c.solution.n < u64_mod)

module _ (pubkey_text : Pubkey → Text) where
  -- Two lists of contributions with the same lines are of the same members with the same digests and
  -- nonces, in the same order; if keys are told apart by their texts, which have no space, digests
  -- are of bytes and nonces fit their type.
  pub lines-attested :
      ((j k : Pubkey) → pubkey_text j ≡ pubkey_text k → j ≡ k)
      → ((k : Pubkey) → IsFree b' ' (pubkey_text k))
      → (cs cs' : MinerContributions) → All IsTyped cs
      → All IsTyped cs'
      → lines pubkey_text cs ≡ lines pubkey_text cs'
      → map attested cs ≡ map attested cs'
  unfolding lines line
  lines-attested apart free [] [] p q e = refl
  lines-attested apart free [] (c' ∷ cs') p q e = absurd (
      not_empty (pubkey_text c'.member) b' ' _ (
        e
        ∙ cut_line (pubkey_text c'.member) (hex_string c'.solution.d)
            (decimal (from_le_bytes c'.solution.n)) (lines pubkey_text cs')))
  lines-attested apart free (c ∷ cs) [] p q e = absurd (
      not_empty (pubkey_text c.member) b' ' _ (
        sym e
        ∙ cut_line (pubkey_text c.member) (hex_string c.solution.d)
            (decimal (from_le_bytes c.solution.n)) (lines pubkey_text cs)))
  lines-attested apart free (c ∷ cs) (c' ∷ cs') p q e =
      let e' =
        sym (
          cut_line (pubkey_text c.member) (hex_string c.solution.d)
            (decimal (from_le_bytes c.solution.n)) (lines pubkey_text cs))
        ∙ e
        ∙ cut_line (pubkey_text c'.member) (hex_string c'.solution.d)
            (decimal (from_le_bytes c'.solution.n)) (lines pubkey_text cs') in
      let (m, e₁) =
        cut_at b' ' (pubkey_text c.member) (pubkey_text c'.member) _ _ (free c.member)
          (free c'.member) e' in
      let (h, e₂) =
        cut_at b' ' (hex_string c.solution.d) (hex_string c'.solution.d) _ _
          (hex_string-IsFree c.solution.d p.0.0) (hex_string-IsFree c'.solution.d q.0.0) e₁ in
      let (d, e₃) =
        cut_at 10 (decimal (from_le_bytes c.solution.n)) (decimal (from_le_bytes c'.solution.n)) _ _
          (decimal-IsFree (from_le_bytes c.solution.n))
          (decimal-IsFree (from_le_bytes c'.solution.n)) e₂ in
      let rest = lines-attested apart free cs cs' p.1 q.1 e₃ in
      ground (
        arith,
        apart c.member c'.member m,
        hex_string_apart c.solution.d c'.solution.d p.0.0 q.0.0 h,
        decimal_apart (from_le_bytes c.solution.n) (from_le_bytes c'.solution.n) p.0.1 q.0.1 d,
        rest,
      )
