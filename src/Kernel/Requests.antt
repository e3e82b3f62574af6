-- ===== src/Kernel/Requests.antt =====
-- kernel/blk_drv/ll_rw_blk.c: the table of requests and a device's queue. A request is named by its
-- index in `request`, and the queue lists the indices from `current_request` on.
pub mod Elevator
pub mod Slots
mod Tests
use linux.Common.{
  ℕ, zero, suc, ◌+◌, ◌*◌, ◌/◌, ◌%◌, ◌^◌, Bool, true, false, Option, none, some, List, [], ◌∷◌, not,
  ◌&&◌, ◌||◌, ltb, ◌==◌, if◌then◌else◌, get_or, set,
}

-- `dev` is not negative, since a free entry is `none`; `bh` is the number of the buffer.
pub record Request : Type 0 where
  pub dev : ℕ
  pub cmd : ℕ
  pub sector : ℕ
  pub bh : ℕ

pub record Buffer : Type 0 where
  pub b_dev : ℕ
  pub b_blocknr : ℕ
  pub b_lock : Bool
  pub b_dirt : Bool
  pub b_uptodate : Bool

pub record Requests : Type 0 where
  pub request : List (Option Request)
  pub queue : List ℕ

abbrev pub nr_request : ℕ
nr_request = 32

abbrev pub read : ℕ
read = 0

abbrev pub write : ℕ
write = 1

abbrev pub reada : ℕ
reada = 2

abbrev pub writea : ℕ
writea = 3

-- `IN_ORDER(s1,s2)`
pub in_order : Request → Request → Bool
in_order r q =
    ltb r.cmd q.cmd
    || (r.cmd == q.cmd && (ltb r.dev q.dev || (r.dev == q.dev && ltb r.sector q.sector)))

-- The `for` loop of add_request and the two lines after it: what follows `tmp` in the queue, where
-- `request` gives the request at an index.
unfoldable pub insert_after : (ℕ → Request) → ℕ → ℕ → List ℕ → List ℕ
unfolding in_order
insert_after request req tmp [] = req ∷ []
insert_after request req tmp (next ∷ rest) =
    let later = insert_after request req next rest in
    if (in_order (request tmp) (request req) || not (in_order (request tmp) (request next)))
      && in_order (request req) (request next)
    then req ∷ next ∷ rest
    else next ∷ later

-- A device that was idle is started on the request.
pub add_request : (ℕ → Request) → ℕ → List ℕ → List ℕ
unfolding insert_after
add_request request req [] = req ∷ []
add_request request req (tmp ∷ rest) = tmp ∷ insert_after request req tmp rest

-- `while (--req >= request) if (req->dev<0) break;`
pub find_request : List (Option Request) → ℕ → Option ℕ
find_request table zero = none
find_request table (suc i) =
    let rest = find_request table i in elim (get_or table i none) [ none ↦ some i | some r ↦ rest ]

pub data Requested : Type 0 where
  -- the call returns; `true` says that it has started the device
  returns : Requests → Buffer → Bool → Requested
  sleeps_on_buffer : Requested
  sleeps_on_request : Buffer → Requested
  panic : Requested

abbrev pub no_request : Request
no_request = record { dev = 0; cmd = 0; sector = 0; bh = 0 }

abbrev pub request_at : List (Option Request) → ℕ → Request
request_at table i = elim (get_or table i none) [ none ↦ no_request | some r ↦ r ]

-- With the buffer locked, for a transfer that is needed; `bh` is the buffer's number.
pub queue_request : ℕ → Bool → ℕ → Buffer → Requests → Requested
unfolding add_request find_request
queue_request rw rw_ahead bh b s =
    let last = if rw == read then nr_request else nr_request * 2 / 3 in
    elim (find_request s.request last) [
      | none ↦
          if rw_ahead then returns s (record b { b_lock = false }) false else sleeps_on_request b
      | some i ↦
          let req : Request = record {
            dev = b.b_dev;
            cmd = rw;
            sector = b.b_blocknr * 2 % 2 ^ 32;
            bh = bh;
          } in
          let table = set s.request i (some req) in
          returns (record { request = table; queue = add_request (request_at table) i s.queue })
            (record b { b_dirt = false }) (elim s.queue [ [] ↦ true | t ∷ ts ↦ false ])
    ]

-- `rw` and `bh` as in the source, for the device of `s`.
pub make_request : ℕ → ℕ → Buffer → Requests → Requested
unfolding queue_request
make_request rw bh b s =
    let rw_ahead = rw == reada || rw == writea in
    let rw' = if rw == reada then read else if rw == writea then write else rw in
    if rw_ahead && b.b_lock
    then returns s b false
    else if not (rw' == read) && not (rw' == write)
    then panic
    else if b.b_lock
    then sleeps_on_buffer
    else if rw' == write && not b.b_dirt || rw' == read && b.b_uptodate
    then returns s b false
    else queue_request rw' rw_ahead bh (record b { b_lock = true }) s
