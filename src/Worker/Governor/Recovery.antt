-- ===== src/Worker/Governor/Recovery.antt =====
-- A throttled lane recovers its full concurrency.
use native.Mathlib.Nat.{mul-le-mul, mul-le-mul_right}
use native.Mathlib.Decide.{dec_lt}
use tiktok_outreach.Prelude.{
  ◌∙◌, sym, ℕ, ◌+◌, ◌-◌, ◌*◌, ◌≤◌, ◌<◌, min, ◌≡◌, Bool, List, [], ◌∷◌, arith, length,
}
use tiktok_outreach.Worker.Backoff.{increased_concurrency}
use tiktok_outreach.Worker.Governor.Lane.{
  Operation, healthy, ResponseMeta, Permit, Lane, Options, IsConfigured, technical_max_for,
}
use tiktok_outreach.Worker.Governor.Settle.{settle_healthy}
use tiktok_outreach.Worker.Governor.Calls.{healthy_outcome, healthies, settle}
use tiktok_outreach.Worker.Governor.Invariant.{Inv, settle-Inv}

-- A healthy answer: its permit, whether it was accepted, what came with it, and when.
pub record Answer : Type 0 where
  pub permit : Permit
  pub is_accepted : Bool
  pub meta : ResponseMeta
  pub at : ℕ

abbrev pub answer : Answer → Lane → Lane
answer a l = settle_healthy a.permit (healthy_outcome a.is_accepted) a.meta a.at l

abbrev pub answers : List Answer → Lane → Lane
answers [] l = l
answers (a ∷ rest) l = answers rest (answer a l)

-- What is missing: the steps up to the limit, less the successes counted towards the next one.
abbrev distance : ℕ → ℕ → ℕ → ℕ
distance limit current count = (limit - current) * limit - min count (limit - 1)

one_step :
    (limit current : ℕ)
    → current < limit
    → (limit - current) * limit ≡ (limit - (current + 1)) * limit + limit
one_step limit current h =
    let e : limit - current ≡ limit - (current + 1) + 1 = omega arith in rw e (omega arith)

distance-increased :
    (limit current count : ℕ)
    → 1 ≤ current
    → current ≤ limit
    → let u = increased_concurrency current limit count in
      distance limit u.effective_concurrency u.healthy_success_count
      ≤ distance limit current count - 1
unfolding increased_concurrency
distance-increased limit current count h k = elim (dec_lt current limit) [
  | yes lt ↦ ground (arith, one_step limit current lt)
  | no full ↦ let e : current ≡ limit = omega arith in rw e (ground arith)
]

square-pos : (n : ℕ) → 1 ≤ n → 1 ≤ n * n
square-pos n h = mul-le-mul {n₁ = 1} {m₁ = 1} {n₂ = n} {m₂ = n} h h

abbrev lane_distance : Lane → ℕ
lane_distance l = distance l.technical_max l.effective_concurrency l.healthy_success_count

answer-distance :
    (a : Answer) (l : Lane)
    → 1 ≤ l.effective_concurrency
    → l.effective_concurrency ≤ l.technical_max
    → lane_distance (answer a l) ≤ lane_distance l - 1
unfolding settle_healthy
answer-distance a l h k =
    distance-increased l.technical_max l.effective_concurrency l.healthy_success_count h k

-- A full lane is healthy once an answer has come.
abbrev FullIsHealthy : Lane → Type 0
FullIsHealthy l = l.effective_concurrency ≡ l.technical_max → l.state ≡ healthy

answer-FullIsHealthy : (a : Answer) (l : Lane) → FullIsHealthy (answer a l)
unfolding settle_healthy
answer-FullIsHealthy a l e = ground arith

answers-FullIsHealthy :
    (rest : List Answer) (l : Lane) → FullIsHealthy l → FullIsHealthy (answers rest l)
answers-FullIsHealthy [] l h = h
answers-FullIsHealthy (a ∷ rest) l h =
    answers-FullIsHealthy rest (answer a l) (answer-FullIsHealthy a l)

full_of_distance :
    (limit current count : ℕ)
    → 1 ≤ current
    → current ≤ limit
    → distance limit current count ≡ 0
    → current ≡ limit
full_of_distance limit current count h k z = elim (dec_lt current limit) [
  | yes lt ↦ absurd (omega (arith, one_step limit current lt))
  | no full ↦ omega arith
]

module _ (o : Options) (op : Operation) (configured : IsConfigured o) where
  answer-Inv : (a : Answer) (l : Lane) → Inv o op l → Inv o op (answer a l)
  unfolding settle
  answer-Inv a l v = settle-Inv o op configured a.at (healthies a.permit a.is_accepted a.meta) l v

  answers-full :
      (rest : List Answer) (l : Lane)
      → Inv o op l
      → lane_distance l ≤ length rest
      → (answers rest l).effective_concurrency ≡ technical_max_for o op
  answers-full [] l v d =
      full_of_distance l.technical_max l.effective_concurrency l.healthy_success_count v.positive
        v.capped (omega arith)
      ∙ v.limit
  answers-full (a ∷ rest) l v d =
      answers-full rest (answer a l) (answer-Inv a l v)
        (omega (arith, answer-distance a l v.positive v.capped))

  answers-Inv : (rest : List Answer) (l : Lane) → Inv o op l → Inv o op (answers rest l)
  answers-Inv [] l v = v
  answers-Inv (a ∷ rest) l v = answers-Inv rest (answer a l) (answer-Inv a l v)

  limit_pos : (l : Lane) → Inv o op l → 1 ≤ technical_max_for o op
  limit_pos l v = omega (arith, v.limit, v.positive, v.capped)

  lane_distance-le :
      (l : Lane) → Inv o op l → lane_distance l ≤ technical_max_for o op * technical_max_for o op
  lane_distance-le l v =
      let p : (l.technical_max - l.effective_concurrency) * l.technical_max
          ≤ l.technical_max * l.technical_max =
        mul-le-mul_right l.technical_max (omega arith) in
      rw (← v.limit) (omega arith)

  -- From any state in which the invariant holds, limit² or more healthy answers in a row bring the
  -- lane back to `HEALTHY` at its full concurrency.
  pub answers_recover :
      (rest : List Answer) (l : Lane)
      → Inv o op l
      → technical_max_for o op * technical_max_for o op ≤ length rest
      → let after = answers rest l in
        (after.effective_concurrency ≡ technical_max_for o op) × (after.state ≡ healthy)
  answers_recover [] l v h = absurd (omega (arith, square-pos _ (limit_pos l v)))
  answers_recover (a ∷ rest) l v h =
      let d : lane_distance l ≤ length (a ∷ rest) = omega (arith, lane_distance-le l v) in
      let e = answers-full (a ∷ rest) l v d in
      let w = answers-Inv (a ∷ rest) l v in
      (e, answers-FullIsHealthy rest (answer a l) (answer-FullIsHealthy a l) (e ∙ sym w.limit))
