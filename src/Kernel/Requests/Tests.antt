-- ===== src/Kernel/Requests/Tests.antt =====
-- Tests of the request queue: three reads in elevator order.
use linux.Common.{
  ℕ, ◌≡◌, ◌≤◌, refl, true, false, Option, some, none, List, [], ◌∷◌, arith, replicate, inr,
}
use linux.Kernel.Requests.{
  Request, Buffer, Requests, request_at, add_request, in_order, make_request,
}
use linux.Kernel.Requests.Elevator.{AllDiffer, Placed, sweeps, falls, add_request-sweeps}
use linux.Kernel.Requests.Slots.{Handled, make_request-Handled}

abbrev read_at : ℕ → Request
read_at sector = record { dev = 0x301; cmd = 0; sector = sector; bh = 0 }

-- The device works at sector 40, goes up to 90 and comes back for 10; the new request is for 60.
abbrev table : List (Option Request)
table =
    some (read_at 40)
    ∷ some (read_at 90)
    ∷ some (read_at 10)
    ∷ some (read_at 60)
    ∷ replicate 28 none

abbrev queue : List ℕ
queue = 0 ∷ 1 ∷ 2 ∷ []

differ : AllDiffer (request_at table) 3 queue
differ = (inr (inr (omega arith)), (inr (inr (omega arith)), (inr (inr (omega arith)), tt)))

two_sweeps : sweeps (request_at table) queue ≤ 2
unfolding sweeps falls in_order
two_sweeps = omega arith

add_request-sweeps_example :
    Placed 3 queue (add_request (request_at table) 3 queue)
    × (sweeps (request_at table) (add_request (request_at table) 3 queue) ≤ 2)
add_request-sweeps_example = add_request-sweeps (request_at table) 3 queue differ two_sweeps

on_the_way : add_request (request_at table) 3 queue ≡ 0 ∷ 3 ∷ 1 ∷ 2 ∷ []
unfolding add_request in_order
on_the_way = refl

abbrev dirty : Buffer
dirty = record { b_dev = 0x301; b_blocknr = 30; b_lock = false; b_dirt = true; b_uptodate = true }

abbrev requests : Requests
requests = record { request = table; queue = queue }

make_request-Handled_example : Handled 1 5 dirty requests (make_request 1 5 dirty requests)
make_request-Handled_example = make_request-Handled 1 5 dirty requests (omega arith)
