-- ===== src/Server/Aggregator/Invariant.antt =====
-- What holds of the current contributions after every insertion.
use mathlib.Core.Path.{subst, sym}
use ore_pool.Prelude.{
  ℕ, ◌%◌, ◌≤◌, ◌≡◌, refl, ap, ok, List, [], ◌∷◌, Option, none, some, false, min, map, sum, All,
  arith, Bool-cases, ltb, inl, inr, ◌⊎◌,
}
use ore_pool.Prelude.Words.{u64_mod, wrapping_add}
use ore_pool.Prelude.Store.{get, put, get-put}
use ore_pool.Server.Aggregator.{
  Aggregator, Contribution, Solution, Winner, MinerContributions, contains, insert, contend, as_u64,
  max_score,
}

abbrev pub scores : MinerContributions → List ℕ
scores = map (λ (c : Contribution). c.score)

-- One contribution of each member.
abbrev pub IsDistinct : MinerContributions → Type 0
IsDistinct [] = Unit {0}
IsDistinct (c ∷ cs) = (contains c.member cs ≡ false) × IsDistinct cs

-- A solution stands among the contributions.
abbrev pub IsAmong : Solution → MinerContributions → Type 0
IsAmong s [] = ⊥
IsAmong s (c ∷ cs) = (s ≡ c.solution) ⊎ IsAmong s cs

-- The winner is the solution of one of the contributions, and none is more difficult.
abbrev pub IsBest : (Solution → ℕ) → MinerContributions → Option Winner → Type 0
IsBest difficulty cs none = cs ≡ []
IsBest difficulty cs (some w) =
    (w.difficulty ≡ difficulty w.solution)
    × All (λ (c : Contribution). difficulty c.solution ≤ w.difficulty) cs
    × IsAmong w.solution cs

-- The aggregator's accumulators describe the contributions to the current challenge.
pub record IsConsistent (difficulty : Solution → ℕ) (agg : Aggregator) : Type 0 where
  pub current : MinerContributions
  pub current_at : get (as_u64 agg.challenge.lash_hash_at) agg.contributions ≡ some current
  pub distinct : IsDistinct current
  pub capped : All (λ (c : Contribution). c.score ≤ max_score) current
  pub scored : agg.total_score ≡ sum (scores current) % u64_mod
  pub best : IsBest difficulty current agg.winner

All-le_mono :
    (f : Solution → ℕ) (a b : ℕ) (cs : MinerContributions)
    → a ≤ b
    → All (λ (c : Contribution). f c.solution ≤ a) cs
    → All (λ (c : Contribution). f c.solution ≤ b) cs
All-le_mono f a b [] le h = tt
All-le_mono f a b (c ∷ cs) le h = (omega arith, All-le_mono f a b cs le h.1)

-- A contender that joins the contributions is compared with the winner.
contend-IsBest :
    (difficulty : Solution → ℕ) (c : Contribution) (cs : MinerContributions) (o : Option Winner)
    (w : Winner)
    → w.solution ≡ c.solution
    → w.difficulty ≡ difficulty w.solution
    → IsBest difficulty cs o
    → IsBest difficulty (c ∷ cs) (some (contend o w))
contend-IsBest difficulty c cs none w same own h =
    rw h (own, (ground (arith, ap difficulty same), tt), inl same)
contend-IsBest difficulty c cs (some v) w same own h =
    elim (Bool-cases (ltb v.difficulty w.difficulty)) [
      | inl more ↦
          let e : contend (some v) w ≡ w = ground (arith, more) in
          subst (λ x. IsBest difficulty (c ∷ cs) (some x)) (sym e)
            (
              own,
              (
                ground (arith, ap difficulty same),
                All-le_mono difficulty v.difficulty w.difficulty cs (ground arith) h.1,
              ),
              inl same,
            )
      | inr less ↦
          let e : contend (some v) w ≡ v = ground (arith, less) in
          subst (λ x. IsBest difficulty (c ∷ cs) (some x)) (sym e)
            (h.0, (ground (arith, ap difficulty same), h.1), inr h.2)
    ]

-- An insertion that succeeds keeps the accumulators consistent with the contributions to the
-- current challenge: one contribution of each member, every score capped, the total their wrapped
-- sum, and the winner among the most difficult solutions.
pub insert-IsConsistent :
    (difficulty : Solution → ℕ) (agg agg' : Aggregator) (c : Contribution)
    → insert difficulty agg c ≡ ok agg'
    → IsConsistent difficulty agg
    → IsConsistent difficulty agg'
unfolding insert
insert-IsConsistent difficulty agg agg' c h v = elim (Bool-cases (contains c.member v.current)) [
  | inl old ↦ let e : agg' ≡ agg = ground (arith, v.current_at, old) in rw e v
  | inr new ↦
      let normalized = record c { score = min c.score max_score } in
      let key = as_u64 agg.challenge.lash_hash_at in
      let contender : Winner = record {
        solution = c.solution;
        difficulty = difficulty c.solution;
      } in
      let inserted : Aggregator = record agg {
        contributions = put key (normalized ∷ v.current) agg.contributions;
        total_score = wrapping_add agg.total_score normalized.score;
        winner = some (contend agg.winner contender);
      } in
      let e : agg' ≡ inserted = ground (arith, v.current_at, new) in
      rw e (record {
        current = normalized ∷ v.current;
        current_at = ground (arith, get-put key key (normalized ∷ v.current) agg.contributions);
        distinct = (new, v.distinct);
        capped = (omega arith, v.capped);
        scored = omega (arith, v.scored);
        best = contend-IsBest difficulty normalized v.current agg.winner contender refl refl v.best;
      })
]
