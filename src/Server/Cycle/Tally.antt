-- ===== src/Server/Cycle/Tally.antt =====
-- server/src/aggregator.rs: a round of contributions against a plain account of it, in which the
-- first solution of each member counts.
use ore_pool.Prelude.{
  ℕ, ◌%◌, ◌≡◌, refl, List, [], ◌∷◌, Option, none, some, ok, true, false, ◌==◌, min, sum, inl, inr,
  ◌⊎◌, arith, Bool-cases, ltb, if◌then◌else◌, Result-cases,
}
use ore_pool.Prelude.Words.{u64_mod, wrapping_add}
use ore_pool.Prelude.Store.{get, put, get-put}
use ore_pool.Api.State.{Addresses, Pubkey}
use ore_pool.Server.Aggregator.{
  Aggregator, Contribution, MinerContributions, Solution, Winner, as_u64, contains, contend, insert,
  max_score, get_current_contributions,
}
use ore_pool.Server.Aggregator.Invariant.{scores}
use ore_pool.Server.Cycle.{Surroundings, settled, receive, receive_all, reset}
use ore_pool.Server.Cycle.Reset.{
  fetched, pool_after, restarted, reset_unfetched, reset_half, reset_whole,
}
use ore_pool.Server.Operator.{Operator}
use ore_pool.Server.Rpc.{Rpc}
use ore_pool.Server.State.{ServerState}

-- A score counts up to a bound.
abbrev pub capped : Contribution → Contribution
capped c = record c { score = min c.score max_score }

-- The plain account: what has been taken, the newest first; a member that has been taken is passed
-- over.
unfoldable pub take_in : Contribution → MinerContributions → MinerContributions
take_in c taken = if contains c.member taken then taken else capped c ∷ taken

unfoldable pub take_all : List Contribution → MinerContributions → MinerContributions
take_all [] taken = taken
take_all (c ∷ cs) taken = take_all cs (take_in c taken)

-- The most difficult solution, and of several the one that came first.
unfoldable pub best_of : (Solution → ℕ) → MinerContributions → Option Winner
best_of difficulty [] = none
best_of difficulty (c ∷ cs) =
    let contender : Winner = record { solution = c.solution; difficulty = difficulty c.solution } in
    elim (best_of difficulty cs) [
      | none ↦ some contender
      | some before ↦
          if ltb before.difficulty contender.difficulty then some contender else some before
    ]

-- The aggregator shows this account of the current challenge.
pub record Shows (difficulty : Solution → ℕ) (agg : Aggregator) (taken : MinerContributions)
    : Type 0 where
  pub current_at : get (as_u64 agg.challenge.lash_hash_at) agg.contributions ≡ some taken
  pub scored : agg.total_score ≡ sum (scores taken) % u64_mod
  pub best : agg.winner ≡ best_of difficulty taken

contend_best :
    (difficulty : Solution → ℕ) (c : Contribution) (taken : MinerContributions)
    (winner : Option Winner)
    → winner ≡ best_of difficulty taken
    → some (contend winner (record { solution = c.solution; difficulty = difficulty c.solution }))
      ≡ best_of difficulty (capped c ∷ taken)
unfolding best_of
contend_best difficulty c taken none h = ground (arith, h)
contend_best difficulty c taken (some w) h = ground (arith, h)

settled-Shows :
    (difficulty : Solution → ℕ) (c : Contribution) (agg : Aggregator) (taken : MinerContributions)
    → Shows difficulty agg taken
    → Shows difficulty (settled agg (insert difficulty agg c)) (take_in c taken)
unfolding insert take_in best_of get_current_contributions
settled-Shows difficulty c agg taken v = elim (Bool-cases (contains c.member taken)) [
  | inl old ↦
      let same : settled agg (insert difficulty agg c) ≡ agg = ground (arith, old, v.current_at) in
      let unchanged : take_in c taken ≡ taken = ground (arith, old) in rw (same, unchanged) v
  | inr new ↦
      let key = as_u64 agg.challenge.lash_hash_at in
      let inserted : Aggregator = record agg {
        contributions = put key (capped c ∷ taken) agg.contributions;
        total_score = wrapping_add agg.total_score (min c.score max_score);
        winner = some (
            contend agg.winner
              (record { solution = c.solution; difficulty = difficulty c.solution }));
      } in
      let same : settled agg (insert difficulty agg c) ≡ inserted =
        ground (arith, new, v.current_at) in
      let taken_in : take_in c taken ≡ capped c ∷ taken = ground (arith, new) in
      rw (same, taken_in)
        (record {
          current_at = ground (arith, get-put key key (capped c ∷ taken) agg.contributions);
          scored = omega (arith, v.scored);
          best = contend_best difficulty c taken agg.winner v.best;
        })
]

-- The first entry of a member.
unfoldable pub first_of : Pubkey → List Contribution → Option Contribution
first_of m [] = none
first_of m (c ∷ cs) = if m == c.member then some c else first_of m cs

abbrev pub or_else : Option Contribution → Option Contribution → Option Contribution
or_else none second = second
or_else (some c) second = some c

abbrev pub capped? : Option Contribution → Option Contribution
capped? none = none
capped? (some c) = some (capped c)

contains-first_of :
    (m : Pubkey) (cs : MinerContributions)
    → ((contains m cs ≡ false) × (first_of m cs ≡ none))
      ⊎ ((contains m cs ≡ true) × ((c : Contribution) × (first_of m cs ≡ some c)))
unfolding contains first_of
contains-first_of m [] = inl (refl, refl)
contains-first_of m (c ∷ cs) = elim (Bool-cases (m == c.member)) [
  | inl e ↦ inr (ground (arith, e), (c, ground (arith, e)))
  | inr e ↦ elim (contains-first_of m cs) [
    | inl (out, none_found) ↦ inl (ground (arith, e, out), ground (arith, e, none_found))
    | inr (yea, (found, e')) ↦ inr (ground (arith, e, yea), (found, ground (arith, e, e')))
  ]
]

first_of-take_in :
    (m : Pubkey) (c : Contribution) (taken : MinerContributions)
    → first_of m (take_in c taken) ≡ or_else (first_of m taken) (capped? (first_of m (c ∷ [])))
unfolding take_in first_of
first_of-take_in m c taken = elim (Bool-cases (m == c.member)) [
  | inl e ↦ elim (contains-first_of c.member taken) [
    | inl (out, none_found) ↦ ground (arith, e, out, none_found)
    | inr (yea, (found, e')) ↦ ground (arith, e, yea, e')
  ]
  | inr e ↦ elim (Bool-cases (contains c.member taken)) [
    | inl old ↦ elim (contains-first_of m taken) [
      | inl (out, e') ↦ ground (arith, e, old, e')
      | inr (yea, (found, e')) ↦ ground (arith, e, old, e')
    ]
    | inr new ↦ elim (contains-first_of m taken) [
      | inl (out, e') ↦ ground (arith, e, new, e')
      | inr (yea, (found, e')) ↦ ground (arith, e, new, e')
    ]
  ]
]

first_of-take_all :
    (m : Pubkey) (cs : List Contribution) (taken : MinerContributions)
    → first_of m (take_all cs taken) ≡ or_else (first_of m taken) (capped? (first_of m cs))
unfolding take_all first_of
first_of-take_all m [] taken = ground arith
first_of-take_all m (c ∷ cs) taken =
    ground (arith, first_of-take_in m c taken, first_of-take_all m cs (take_in c taken))

module _ {R : Type 0} (rpc : Rpc R) (ids : Addresses) (operator : Operator)
    (env : Surroundings) where
  receive_all-Shows :
      (cs : List Contribution) (s : ServerState R) (taken : MinerContributions)
      → Shows env.difficulty s.aggregator taken
      → Shows env.difficulty
          (receive_all rpc ids operator env cs s).1.aggregator
          (take_all cs taken)
  unfolding receive_all take_all receive
  receive_all-Shows [] s taken v = v
  receive_all-Shows (c ∷ cs) s taken v =
      receive_all-Shows cs (receive rpc ids operator env c s).1 (take_in c taken)
        (settled-Shows env.difficulty c s.aggregator taken v)

  fresh :
      (s s' : ServerState R)
      → reset rpc ids operator env s ≡ (ok tt, s')
      → Shows env.difficulty s'.aggregator []
  unfolding best_of
  fresh s s' h = elim (Result-cases (fetched rpc ids operator env s).0) [
    | inl (challenge, e) ↦ elim (Result-cases (pool_after rpc ids operator env s).0) [
      | inl (pool, e') ↦
          let key = as_u64 challenge.lash_hash_at in
          let w = reset_whole rpc ids operator env s challenge pool e e' in
          let same : s'.aggregator ≡ restarted s.aggregator challenge pool = ground (arith, w, h) in
          rw same (record {
            current_at = ground (arith, get-put key key [] s.aggregator.contributions);
            scored = refl;
            best = refl;
          })
      | inr (x, e') ↦ absurd (ground (arith, reset_half rpc ids operator env s challenge x e e', h))
    ]
    | inr (x, e) ↦ absurd (ground (arith, reset_unfetched rpc ids operator env s x e, h))
  ]

  -- After a reset that succeeds, and whatever contributions arrive then, the aggregator shows the
  -- plain account of them: the first contribution of each member and no other, each counted up to
  -- the bound, the total their wrapped sum, and the winner the first of the most difficult.
  pub receive_all-Shows-reset :
      (s s' : ServerState R) (cs : List Contribution)
      → reset rpc ids operator env s ≡ (ok tt, s')
      → Shows env.difficulty (receive_all rpc ids operator env cs s').1.aggregator (take_all cs [])
        × ((m : Pubkey) → first_of m (take_all cs []) ≡ capped? (first_of m cs))
  unfolding first_of
  receive_all-Shows-reset s s' cs h =
      (receive_all-Shows cs s' [] (fresh s s' h), λ m. first_of-take_all m cs [])
