-- ===== src/Kernel/Requests/Elevator.antt =====
-- add_request keeps the queue of a device in at most two sweeps.
use linux.Common.{
  ℕ, ◌+◌, ◌≤◌, ◌≡◌, refl, ◌≢◌, ◌⊎◌, inl, inr, true, false, List, [], ◌∷◌, ◌++◌, not, ◌&&◌, ◌||◌,
  arith, if◌then◌else◌, Bool-cases, ap,
}
use linux.Kernel.Requests.{Request, in_order, insert_after, add_request}

-- Requests for different commands, devices or sectors.
abbrev pub Differ : Request → Request → Type 0
Differ r q = (r.cmd ≢ q.cmd) ⊎ (r.dev ≢ q.dev) ⊎ (r.sector ≢ q.sector)

abbrev pub AllDiffer : (ℕ → Request) → ℕ → List ℕ → Type 0
AllDiffer request req [] = Unit
AllDiffer request req (x ∷ xs) = Differ (request x) (request req) × AllDiffer request req xs

in_order-total : (r q : Request) → Differ r q → in_order r q ≡ false → in_order q r ≡ true
unfolding in_order
in_order-total r q differ h = ground arith

-- How often the order falls back from one request of the queue to the next.
unfoldable pub falls : (ℕ → Request) → ℕ → List ℕ → ℕ
falls request tmp [] = 0
falls request tmp (next ∷ rest) =
    (if in_order (request tmp) (request next) then 0 else 1) + falls request next rest

unfoldable pub sweeps : (ℕ → Request) → List ℕ → ℕ
unfolding falls
sweeps request [] = 0
sweeps request (tmp ∷ rest) = 1 + falls request tmp rest

swap : (r q : Request) → Differ r q → Differ q r
swap r q differ = ground arith

module _ (request : ℕ → Request) (req : ℕ) where
  -- Into an ascending run whose start comes before the request.
  falls-ascending :
      (tmp : ℕ) (rest : List ℕ)
      → AllDiffer request req rest
      → falls request tmp rest ≡ 0
      → in_order (request tmp) (request req) ≡ true
      → falls request tmp (insert_after request req tmp rest) ≡ 0
  unfolding falls insert_after
  falls-ascending tmp [] all zero_falls before = rw before
  falls-ascending tmp (next ∷ rest) all zero_falls before =
      elim (Bool-cases (in_order (request tmp) (request next))) [
        | inr back ↦ absurd (omega (arith, rw back at zero_falls))
        | inl up ↦
            let run : falls request next rest ≡ 0 = omega (arith, rw up at zero_falls) in
            elim (Bool-cases (in_order (request req) (request next))) [
              | inl here ↦ rw (before, here) (rw (before, here) (omega (arith, run)))
              | inr further ↦
                  let after =
                    in_order-total (request req) (request next)
                      (swap (request next) (request req) all.0) further in
                  let rest_falls = falls-ascending next rest all.1 run after in
                  rw (before, further) (rw up (omega (arith, rest_falls)))
            ]
      ]

  falls-one :
      (tmp : ℕ) (rest : List ℕ)
      → AllDiffer request req rest
      → falls request tmp rest ≤ 1
      → falls request tmp (insert_after request req tmp rest) ≤ 1
  unfolding falls insert_after
  falls-one tmp [] all one = ground arith
  falls-one tmp (next ∷ rest) all one = elim (Bool-cases (in_order (request tmp) (request next))) [
    | inl up ↦
        let run : falls request next rest ≤ 1 = omega (arith, rw up at one) in
        let rest_falls = falls-one next rest all.1 run in
        elim (Bool-cases
          (in_order (request tmp) (request req) && in_order (request req) (request next))) [
            | inl here ↦ ground (arith, up, here, run)
            | inr further ↦ ground (arith, up, further, rest_falls)
          ]
    | inr back ↦
        let run : falls request next rest ≡ 0 = omega (arith, rw back at one) in
        elim (Bool-cases (in_order (request req) (request next))) [
          | inl here ↦ ground (arith, back, here, run)
          | inr further ↦
              let after =
                in_order-total (request req) (request next)
                  (swap (request next) (request req) all.0) further in
              let rest_falls = falls-ascending next rest all.1 run after in
              ground (arith, back, further, rest_falls)
        ]
  ]

-- The request stands in the queue once, the others keep their order, and a request that the device is
-- working on stays first.
pub record Placed (req : ℕ) (queue queue' : List ℕ) : Type 0 where
  pub before : List ℕ
  pub after : List ℕ
  pub split : queue ≡ before ++ after
  pub joined : queue' ≡ before ++ (req ∷ after)
  pub working : (before ≡ []) → queue ≡ []

insert_after-split :
    (request : ℕ → Request) (req tmp : ℕ) (rest : List ℕ)
    → (before after : List ℕ) × (rest ≡ before ++ after)
      × (insert_after request req tmp rest ≡ before ++ (req ∷ after))
unfolding insert_after
insert_after-split request req tmp [] = ([], [], refl, refl)
insert_after-split request req tmp (next ∷ rest) =
    elim (Bool-cases (
      (in_order (request tmp) (request req) || not (in_order (request tmp) (request next)))
      && in_order (request req) (request next))) [
        | inl here ↦ ([], next ∷ rest, refl, rw here)
        | inr further ↦
            let (before, after, e, e') = insert_after-split request req next rest in
            (next ∷ before, after, ap (λ l. next ∷ l) e, rw further (ap (λ l. next ∷ l) e'))
      ]

-- If a new request differs from those of the queue in command, device or sector, and the queue has at
-- most two ascending sweeps, then the request joins the queue without moving the others and behind the
-- one that the device is working on, and the queue still has at most two ascending sweeps.
pub add_request-sweeps :
    (request : ℕ → Request) (req : ℕ) (queue : List ℕ)
    → AllDiffer request req queue
    → sweeps request queue ≤ 2
    → Placed req queue (add_request request req queue)
      × (sweeps request (add_request request req queue) ≤ 2)
unfolding add_request sweeps falls
add_request-sweeps request req [] all two = (
  record { before = []; after = []; split = refl; joined = refl; working = λ e. refl },
  omega arith,
)
add_request-sweeps request req (tmp ∷ rest) all two =
    let (before, after, e, e') = insert_after-split request req tmp rest in
    let one = falls-one request req tmp rest all.1 (omega arith) in
    (
      record {
        before = tmp ∷ before;
        after = after;
        split = ap (λ l. tmp ∷ l) e;
        joined = ap (λ l. tmp ∷ l) e';
        working = λ h. cc;
      },
      omega (arith, one),
    )
