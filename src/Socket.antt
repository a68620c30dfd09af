-- ===== src/Socket.antt =====
-- kernel/socket.c: the table of sockets. The network interface that sends and receives packets is a
-- parameter.
mod Tests
use os.Base.{
  ℕ, zero, suc, ◌+◌, ◌<◌, ◌≤◌, ◌≡◌, refl, Bool, true, false, not, ◌&&◌, ◌⊎◌, ◌≢◌, ==_ne, Option,
  none, some, List, [], ltb, ◌==◌, ==_self, if◌then◌else◌, update, arith, ℤ, pos, negsuc, minus_one,
  eq_ℤ, Bool-cases, inl, inr,
}

-- SOCKET_MAX, AF_INET, SOCK_STREAM and SOCK_DGRAM
abbrev pub max_sockets : ℕ
max_sockets = 16

abbrev pub af_inet : ℤ
af_inet = pos 2

abbrev pub sock_stream : ℤ
sock_stream = pos 1

abbrev pub sock_dgram : ℤ
sock_dgram = pos 2

-- `socket_t`
pub record Socket : Type 0 where
  pub fd : ℤ
  pub kind : ℤ
  pub ip : ℕ
  pub port : ℕ
  pub connected : Bool
  pub listening : Bool

abbrev pub Sockets : Type 0
Sockets = ℕ → Socket

pub init : Sockets → Sockets
init ss i =
    if ltb i max_sockets
    then record (ss i) { fd = minus_one; connected = false; listening = false }
    else ss i

abbrev opened : ℕ → ℤ → Socket → Socket
opened i kind s = record s { fd = pos i; kind = kind; connected = false; listening = false }

-- The loop of `socket_create` with `n` sockets left from `i` on.
pub create_from : ℕ → ℕ → ℤ → Sockets → Sockets × ℤ
create_from zero i kind ss = (ss, minus_one)
create_from (suc n) i kind ss =
    let rest = create_from n (i + 1) kind ss in
    if eq_ℤ (ss i).fd minus_one then (update ss i (opened i kind (ss i)), pos i) else rest

pub create : ℤ → ℤ → Sockets → Sockets × ℤ
create domain kind ss =
    let made = create_from max_sockets 0 kind ss in
    if not (eq_ℤ domain af_inet)
    then (ss, minus_one)
    else if not (eq_ℤ kind sock_stream) && not (eq_ℤ kind sock_dgram)
    then (ss, minus_one)
    else made

-- A number that the guards let through: in the table, and the socket in use.
abbrev pub socket_of : ℤ → Sockets → Option ℕ
socket_of (negsuc n) ss = none
socket_of (pos n) ss =
    if ltb n max_sockets then (if eq_ℤ (ss n).fd minus_one then none else some n) else none

pub connect : ℤ → ℕ → ℕ → Sockets → Sockets × ℤ
connect sockfd ip port ss = elim (socket_of sockfd ss) [
  | none ↦ (ss, minus_one)
  | some i ↦ (update ss i (record (ss i) { ip = ip; port = port; connected = true }), pos 0)
]

pub bind : ℤ → ℕ → Sockets → Sockets × ℤ
bind sockfd port ss = elim (socket_of sockfd ss) [
  | none ↦ (ss, minus_one)
  | some i ↦ (update ss i (record (ss i) { port = port }), pos 0)
]

pub listen : ℤ → Sockets → Sockets × ℤ
listen sockfd ss = elim (socket_of sockfd ss) [
  | none ↦ (ss, minus_one)
  | some i ↦ (update ss i (record (ss i) { listening = true }), pos 0)
]

pub accept : ℤ → Sockets → Sockets × ℤ
accept sockfd ss = elim (socket_of sockfd ss) [
  | none ↦ (ss, minus_one)
  | some i ↦
      let made = create af_inet sock_stream ss in if (ss i).listening then made else (ss, minus_one)
]

-- `net_send_packet` and `net_recv_packet` of the network interface.
module _ (net_send : List ℕ → ℤ) (net_recv : ℕ → ℤ × List ℕ) where
  pub send : ℤ → List ℕ → Sockets → ℤ
  send sockfd bytes ss = elim (socket_of sockfd ss) [
    | none ↦ minus_one
    | some i ↦ if (ss i).connected then net_send bytes else minus_one
  ]

  pub recv : ℤ → ℕ → Sockets → ℤ × List ℕ
  recv sockfd max_len ss = elim (socket_of sockfd ss) [
    | none ↦ (minus_one, [])
    | some i ↦ net_recv max_len
  ]

abbrev closed_socket : Socket → Socket
closed_socket s = record s { fd = minus_one; connected = false; listening = false }

pub close : ℤ → Sockets → Sockets
close (negsuc n) ss = ss
close (pos n) ss = if ltb n max_sockets then update ss n (closed_socket (ss n)) else ss

-- What the loop does from slot `lo` on, up to slot `hi`.
abbrev pub Created : Sockets → ℕ → ℕ → Sockets × ℤ → Type 0
Created ss lo hi out =
    ((out.1 ≡ minus_one)
      × (out.0 ≡ ss)
      × ((j : ℕ) → lo ≤ j → j < hi → eq_ℤ (ss j).fd minus_one ≡ false))
    ⊎ ((i : ℕ) × (i < hi)
        × (eq_ℤ (ss i).fd minus_one ≡ true)
        × (out.1 ≡ pos i)
        × ((out.0 i).fd ≡ pos i)
        × ((j : ℕ) → i ≢ j → out.0 j ≡ ss j))

create_from-Created :
    (n lo hi : ℕ) (kind : ℤ) (ss : Sockets)
    → hi ≡ lo + n
    → Created ss lo hi (create_from n lo kind ss)
unfolding create_from
create_from-Created zero lo hi kind ss e = inl (refl, refl, λ j a b. absurd (omega arith))
create_from-Created (suc n) lo hi kind ss e = elim (Bool-cases (eq_ℤ (ss lo).fd minus_one)) [
  | inl unused ↦ inr (
    lo,
    omega arith,
    unused,
    rw unused refl,
    rw (unused, ==_self lo) refl,
    λ j ne. rw (unused, ==_ne lo j ne) refl,
  )
  | inr taken ↦ elim (create_from-Created n (lo + 1) hi kind ss (omega arith)) [
    | inl (r, same, all) ↦ inl (
      rw taken r,
      rw taken same,
      λ j a b. elim (Bool-cases (lo == j)) [
        | inl q ↦ let here : lo ≡ j = ground arith in rw here at taken
        | inr q ↦ all j (ground arith) b
      ],
    )
    | inr (i, lt, unused, r, fd, others) ↦
        inr (i, lt, unused, rw taken r, rw taken fd, λ j ne. rw taken (others j ne))
  ]
]

-- `socket_create` of an AF_INET stream or datagram socket either returns -1, changes nothing, and
-- every slot of the table is taken; or it returns the number of a slot of the table that was free,
-- which now carries that number, and no other slot changes.
create-Created :
    (kind : ℤ) (ss : Sockets)
    → (eq_ℤ kind sock_stream ≡ true) ⊎ (eq_ℤ kind sock_dgram ≡ true)
    → Created ss 0 max_sockets (create af_inet kind ss)
unfolding create
create-Created kind ss known = rw valid (create_from-Created max_sockets 0 max_sockets kind ss refl)
  where
    valid : (not (eq_ℤ kind sock_stream) && not (eq_ℤ kind sock_dgram)) ≡ false
    valid = ground (arith, known)
