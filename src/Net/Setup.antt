-- ===== src/Net/Setup.antt =====
-- The configuration of kernel/net_stack.c: dotted addresses, masks, and `net_stack_init`. A string is
-- the list of its characters.
pub mod Address
use os.Base.{
  ℕ, zero, suc, ◌+◌, ◌-◌, ◌*◌, ◌/◌, ◌%◌, ◌^◌, Bool, true, false, not, ◌&&◌, ◌||◌, Option, none,
  some, List, [], ◌∷◌, ◌==◌, ltb, leb, if◌then◌else◌,
}
use os.Net.{Net, Ip, Interface, Entry, zero_ip, zero_mac}

abbrev pub is_digit : ℕ → Bool
is_digit c = leb 48 c && leb c 57

-- The loop over the digits of a part: the value and the rest of the string, none when it is too
-- large or has more than three digits.
unfoldable pub digits : ℕ → ℕ → List ℕ → Option (ℕ × List ℕ)
digits value count [] = some (value, [])
digits value count (c ∷ s) =
    let next = (value * 10 + (c - 48)) % 2 ^ 32 in
    let rest = digits next (suc count) s in
    if not (is_digit c)
    then some (value, c ∷ s)
    else if ltb 255 next || ltb 3 (suc count)
    then none
    else rest

-- A part starts with a digit.
unfoldable pub part : List ℕ → Option (ℕ × List ℕ)
unfolding digits
part [] = none
part (c ∷ s) = if is_digit c then digits 0 0 (c ∷ s) else none

-- The end of a part: a dot, or the end of the string.
abbrev pub after_dot : Option (ℕ × List ℕ) → Option (ℕ × List ℕ)
after_dot none = none
after_dot (some (value, [])) = none
after_dot (some (value, c ∷ s)) = if c == 46 then some (value, s) else none

abbrev pub at_end : Option (ℕ × List ℕ) → Option ℕ
at_end none = none
at_end (some (value, [])) = some value
at_end (some (value, c ∷ s)) = none

infixl 5 ◌>>=◌
abbrev pub ◌>>=◌ : {A B : Type 0} → Option A → (A → Option B) → Option B
none >>= f = none
(some a) >>= f = f a

-- `parse_ipv4` of a string that is not NULL. What it leaves in `out` when it fails is overwritten by
-- the caller.
unfoldable pub parse_ipv4 : List ℕ → Option Ip
unfolding part
parse_ipv4 s = do
  (a, s1) ← after_dot (part s)
  (b, s2) ← after_dot (part s1)
  (c, s3) ← after_dot (part s2)
  d ← at_end (part s3)
  some (record { a = a; b = b; c = c; d = d })

-- The loop of `valid_netmask` over `n` bits from the highest on, with the zero it saw.
pub mask_bits : ℕ → ℕ → Bool → Bool
mask_bits zero value saw_zero = true
mask_bits (suc n) value saw_zero =
    let rest_zero = mask_bits n value true in
    let rest = mask_bits n value saw_zero in
    if value / 2 ^ n % 2 == 0 then rest_zero else if saw_zero then false else rest

pub valid_netmask : Ip → Bool
unfolding mask_bits
valid_netmask m = mask_bits 32 (m.a * 2 ^ 24 + m.b * 2 ^ 16 + m.c * 2 ^ 8 + m.d) false

abbrev pub ip_or_zero : Option Ip → Ip
ip_or_zero none = zero_ip
ip_or_zero (some ip) = ip

abbrev pub mask_or_default : Option Ip → Ip
unfolding valid_netmask
mask_or_default none = record { a = 255; b = 255; c = 255; d = 0 }
mask_or_default (some m) =
    if valid_netmask m then m else record { a = 255; b = 255; c = 255; d = 0 }

abbrev pub no_entry : Entry
no_entry = record { ip = zero_ip; mac = zero_mac; valid = false }

-- `net_stack_init`
unfoldable pub init : Net → Net
unfolding parse_ipv4 mask_or_default
init net =
    let own = ip_or_zero (parse_ipv4 net.settings.net_ip) in
    let old : Interface = net.iface in
    record net {
      local_ip = own;
      local_mask = mask_or_default (parse_ipv4 net.settings.net_mask);
      default_gateway = ip_or_zero (parse_ipv4 net.settings.net_gateway);
      arp_cache = λ i. no_entry;
      arp_cache_next = 0;
      iface = record old { ip_addr = own };
      stack_ready = true;
    }

-- if (!stack_ready) net_stack_init();
unfoldable pub ensure_ready : Net → Net
unfolding init
ensure_ready net = if net.stack_ready then net else init net
