-- ===== src/Launch/Partition.antt =====
-- The workflows' positions in the bucket's list of agents.
use delfos.Prelude.{
  ℕ, zero, suc, ◌+◌, ◌%◌, ◌<◌, ◌≡◌, refl, sym, ap, ◌==◌, ◌∙◌, true, List, [], ◌∷◌, ◌++◌, map, arith,
  length,
}
use delfos.Trace.{uint_mod}
use delfos.Barrier.{Barrier, set, passes}
use delfos.Barrier.Laws.{increments, passes-increments}
use delfos.Launch.{Kind, Numbers, Launched, launch_from, launch, total_agents, launch_all}

-- The numbers from a on, n of them.
abbrev pub range : ℕ → ℕ → List ℕ
range a zero = []
range a (suc n) = a ∷ range (suc a) n

range-append : (a n m : ℕ) → range a n ++ range (a + n) m ≡ range a (n + m)
range-append a zero m =
    let e : a + 0 ≡ a = omega arith in
    let f : m ≡ 0 + m = omega arith in ap (λ x. range x m) e ∙ ap (range a) f
range-append a (suc n) m =
    let e : a + suc n ≡ suc a + n = omega arith in
    let f : suc (n + m) ≡ suc n + m = omega arith in
    ap (λ xs. a ∷ xs) (ap (λ x. range (suc a) n ++ range x m) e ∙ range-append (suc a) n m)
    ∙ ap (range a) f

abbrev pub positions : List Launched → List ℕ
positions xs = map (λ x. x.agent_position) xs

positions-append : (xs ys : List Launched) → positions (xs ++ ys) ≡ positions xs ++ positions ys
positions-append [] ys = refl
positions-append (x ∷ xs) ys = ap (λ zs. x.agent_position ∷ zs) (positions-append xs ys)

length-positions : (xs : List Launched) → length (positions xs) ≡ length xs
length-positions [] = refl
length-positions (x ∷ xs) = ap suc (length-positions xs)

length-range : (a n : ℕ) → length (range a n) ≡ n
length-range a zero = refl
length-range a (suc n) = ap suc (length-range (suc a) n)

positions-launch_from :
    (kind : Kind) (start i n : ℕ)
    → start + i + n < uint_mod
    → positions (launch_from kind start i n) ≡ range (start + i) n
unfolding launch_from
positions-launch_from kind start i zero small = refl
positions-launch_from kind start i (suc n) small =
    let e : (start + i) % uint_mod ≡ start + i = omega arith in
    let f : start + suc i ≡ suc (start + i) = omega arith in
    let rest = positions-launch_from kind start (suc i) n (omega arith) in
    ap (λ x. x ∷ positions (launch_from kind start (suc i) n)) e
    ∙ ap (λ xs. (start + i) ∷ xs) (rest ∙ ap (λ x. range x n) f)

positions-launch :
    (kind : Kind) (n start : ℕ)
    → start + n < uint_mod
    → positions (launch kind n start) ≡ range start n
unfolding launch
positions-launch kind n start small =
    let e : start + 0 ≡ start = omega arith in
    positions-launch_from kind start 0 n (omega arith) ∙ ap (λ x. range x n) e

launch_at :
    (kind : Kind) (n start a : ℕ)
    → start ≡ a
    → a + n < uint_mod
    → positions (launch kind n start) ≡ range a n
launch_at kind n start a e small =
    positions-launch kind n start (omega arith) ∙ ap (λ x. range x n) e

-- The sum of the seven numbers, which the source forms in `uint`.
abbrev pub sum_of : Numbers → ℕ
sum_of c =
    c.agent_n_agents + c.cmn_n_agents + c.iv_n_agents + c.inbound_n_agents + c.scheduled_n_agents
    + c.expired_n_agents + c.delfosnar_n_agents

==_refl : (n : ℕ) → (n == n) ≡ true
==_refl n = ground arith

joined :
    (a n : ℕ) (xs ys : List Launched) (m : ℕ)
    → positions xs ≡ range a n
    → positions ys ≡ range (a + n) m
    → positions (xs ++ ys) ≡ range a (n + m)
joined a n xs ys m p q = rw (positions-append xs ys, p, q, range-append a n m)

total_agents_sum : (c : Numbers) → sum_of c < uint_mod → total_agents c ≡ sum_of c
unfolding total_agents
total_agents_sum c small = omega arith

-- If the seven numbers add up to less than 2^32, the launched workflows stand at the positions
-- 0, 1, ... below the total in the order of their launch: no two share an agent, none is left out.
pub positions-launch_all :
    (c : Numbers) → sum_of c < uint_mod → positions (launch_all c) ≡ range 0 (total_agents c)
unfolding launch_all
positions-launch_all c small =
    let s1 = 0 + c.agent_n_agents in
    let s2 = s1 + c.cmn_n_agents in
    let s3 = s2 + c.iv_n_agents in
    let s4 = s3 + c.inbound_n_agents in
    let s5 = s4 + c.scheduled_n_agents in
    let s6 = s5 + c.expired_n_agents in
    let total = total_agents_sum c small in
    joined 0 c.agent_n_agents _ _ _ (launch_at _ _ _ 0 refl (omega arith)) (
      joined s1 c.cmn_n_agents _ _ _ (launch_at _ _ _ s1 (omega arith) (omega arith)) (
        joined s2 c.iv_n_agents _ _ _ (launch_at _ _ _ s2 (omega arith) (omega arith)) (
          joined s3 c.inbound_n_agents _ _ _ (launch_at _ _ _ s3 (omega arith) (omega arith)) (
            joined s4 c.scheduled_n_agents _ _ _ (launch_at _ _ _ s4 (omega arith) (omega arith)) (
              joined s5 c.expired_n_agents _ _ _ (launch_at _ _ _ s5 (omega arith) (omega arith))
                (launch_at _ _ _ s6 (omega arith) (omega arith)))))))
    ∙ ap (range 0) (omega arith)

-- If the seven numbers add up to less than 2^32, the barrier that was set to the total is open when
-- it has been incremented once for each launched workflow.
pub passes-launch_all :
    (c : Numbers) (b : Barrier)
    → sum_of c < uint_mod
    → passes (increments (length (launch_all c)) (set (total_agents c) b)) ≡ true
passes-launch_all c b small =
    let e = positions-launch_all c small in
    let count : length (launch_all c) ≡ total_agents c =
      sym (length-positions (launch_all c)) ∙ ap length e ∙ length-range 0 (total_agents c) in
    let total = total_agents_sum c small in
    let (_, opens, _) =
      passes-increments (total_agents c) (total_agents c) b (omega arith) (omega arith) in
    rw (count, opens) (==_refl (total_agents c))
