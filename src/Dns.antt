-- ===== src/Dns.antt =====
-- kernel/dns.c: one lookup of a host name at a time. A name is the list of its characters, and a
-- packet the list of its bytes. A callback is its number.
pub mod Names
pub mod Poll
pub mod Port
mod Tests
use os.Base.{
  ℕ, zero, suc, ◌+◌, ◌-◌, ◌/◌, ◌%◌, ◌^◌, Bool, true, false, not, ◌&&◌, ◌||◌, Option, none, some,
  List, [], ◌∷◌, ◌++◌, ◌==◌, ltb, leb, if◌then◌else◌, length,
}
use os.Tcp.Segment.{byte_at, read_be16, write_be16}
use os.Net.{Net, Ip, same_ip, ip_is_zero, ip_at, zero_ip}
use os.Net.Setup.{parse_ipv4}
use os.Net.Udp.{Call, bind}
use os.Net.Ipv4.{Event, udp_call, nothing, tcp_input, udp_send}

abbrev pub dns_port : ℕ
dns_port = 53

abbrev pub source_port : ℕ
source_port = 53000

abbrev pub host_max : ℕ
host_max = 253

abbrev pub poll_interval : ℕ
poll_interval = 4096

abbrev pub max_attempts : ℕ
max_attempts = 5

-- The number of `handle_dns_response` among the handlers.
abbrev pub response_handler : ℕ
response_handler = 1

pub record Dns : Type 0 where
  pub dns_server : Ip
  pub query_packet : List ℕ
  pub pending_host : List ℕ
  pub next_id : ℕ
  pub pending_id : ℕ
  pub poll_ticks : ℕ
  pub attempts : ℕ
  pub ready : Bool
  pub active : Bool
  pub pending_callback : Option ℕ
  pub pending_context : ℕ

-- A call of the callback.
pub record Answer : Type 0 where
  pub callback : ℕ
  pub host : List ℕ
  pub ip : Ip
  pub success : Bool
  pub context : ℕ

-- The characters of a label.
abbrev pub good_char : ℕ → Bool
good_char c =
    (leb 97 c && leb c 122) || (leb 65 c && leb c 90) || (leb 48 c && leb c 57) || (c == 45)

abbrev pub all_good : List ℕ → Bool
all_good [] = true
all_good (c ∷ label) = good_char c && all_good label

-- A label that ended, in front of the others.
abbrev pub close : List ℕ → Option (List ℕ) → Option (List ℕ)
close label none = none
close label (some rest) =
    if (length label == 0) || ltb 63 (length label) || not (all_good label)
    then none
    else some (length label ∷ label ++ rest)

-- The loop of `encode_hostname` with the label so far.
unfoldable pub encode_labels : List ℕ → List ℕ → Option (List ℕ)
encode_labels label [] = close label (some (0 ∷ []))
encode_labels label (c ∷ host) =
    let next = encode_labels [] host in
    let rest = encode_labels (label ++ (c ∷ [])) host in if c == 46 then close label next else rest

abbrev pub within : ℕ → Option (List ℕ) → Option (List ℕ)
within cap none = none
within cap (some bytes) = if ltb cap (length bytes) then none else some bytes

-- `encode_hostname` of a name that is not NULL: the bytes.
unfoldable pub encode_hostname : List ℕ → ℕ → Option (List ℕ)
encode_hostname host cap =
    if (length host == 0) || ltb host_max (length host) || ltb cap (length host + 2)
    then none
    else within cap (encode_labels [] host)

-- The loop of `skip_name`: the offset behind the name.
unfoldable pub skip_labels : ℕ → List ℕ → ℕ → Option ℕ
skip_labels zero packet at' = none
skip_labels (suc steps) packet at' =
    let label = byte_at packet at' in
    let rest = skip_labels steps packet (at' + 1 + label) in
    if leb (length packet) at'
    then none
    else if label / 64 % 4 == 3
    then (if leb (length packet) (at' + 1) then none else some (at' + 2))
    else if not (label / 64 % 4 == 0)
    then none
    else if label == 0
    then some (at' + 1)
    else if ltb (length packet - (at' + 1)) label
    then none
    else rest

-- `skip_name`
abbrev pub skip_name : List ℕ → ℕ → Option ℕ
skip_name packet offset = skip_labels 128 packet offset

abbrev pub call_back : Bool → Ip → Dns → Option ℕ → Option Answer
call_back success ip dns none = none
call_back success ip dns (some callback) = some (record {
  callback = callback;
  host = dns.pending_host;
  ip = ip;
  success = success;
  context = dns.pending_context;
})

-- `finish_query`
abbrev pub finish_query : Bool → Ip → Dns → Option Answer × Dns
finish_query success ip dns = (
  call_back success ip dns dns.pending_callback,
  record dns { active = false; pending_callback = none; pending_context = 0 },
)

-- Four bytes behind a name.
abbrev pub behind : List ℕ → ℕ → Option ℕ → Option ℕ
behind packet n none = none
behind packet n (some offset) = if ltb (length packet) (offset + n) then none else some offset

abbrev pub continue : (ℕ → Option ℕ) → ℕ → Option ℕ → Option ℕ
continue rest n none = none
continue rest n (some offset) = rest (offset + n)

-- The loop over the questions.
unfoldable pub skip_questions : ℕ → List ℕ → ℕ → Option ℕ
skip_questions zero packet offset = some offset
skip_questions (suc n) packet offset =
    continue (λ o. skip_questions n packet o) 4 (behind packet 4 (skip_name packet offset))

-- An answer record: its address, or the next record.
abbrev pub answer_at : List ℕ → (ℕ → Option Ip) → Option ℕ → Option Ip
answer_at packet rest none = none
answer_at packet rest (some offset) =
    let rdlength = read_be16 packet (offset + 8) in
    let data_at = offset + 10 in
    if ltb (length packet - data_at) rdlength
    then none
    else if (read_be16 packet offset == 1)
        && (read_be16 packet (offset + 2) == 1)
        && (rdlength == 4)
        && not (ip_is_zero (ip_at packet data_at))
    then some (ip_at packet data_at)
    else rest (data_at + rdlength)

-- The loop over the answers.
unfoldable pub find_answer : ℕ → List ℕ → ℕ → Option Ip
find_answer zero packet offset = none
find_answer (suc n) packet offset =
    answer_at packet (λ o. find_answer n packet o) (behind packet 10 (skip_name packet offset))

abbrev pub answer_behind : List ℕ → Option ℕ → Option Ip
answer_behind packet none = none
answer_behind packet (some offset) = find_answer (read_be16 packet 6) packet offset

abbrev pub finish_with : Dns → Option Ip → Option Answer × Dns
finish_with dns none = finish_query false zero_ip dns
finish_with dns (some ip) = finish_query true ip dns

-- The checks of the flags: an answer, not truncated, without an error, with a question.
abbrev pub good_flags : List ℕ → Bool
good_flags packet =
    let flags = read_be16 packet 2 in
    (flags / 2 ^ 15 % 2 == 1)
    && (flags / 2 ^ 9 % 2 == 0)
    && (flags % 16 == 0)
    && not (read_be16 packet 4 == 0)

-- `handle_dns_response`
unfoldable pub handle_response : ℕ → Ip → List ℕ → Dns → Option Answer × Dns
handle_response port source packet dns =
    if not dns.active
      || not (port == dns_port)
      || not (same_ip source dns.dns_server)
      || ltb (length packet) 12
      || not (read_be16 packet 0 == dns.pending_id)
    then (none, dns)
    else if not (good_flags packet)
    then finish_query false zero_ip dns
    else finish_with dns (answer_behind packet (skip_questions (read_be16 packet 4) packet 12))

abbrev pub bound : Ip → Dns → Bool × Net → Bool × Dns × Net
bound server dns (ok, net) =
    if ok then (true, record dns { dns_server = server; ready = true }, net) else (false, dns, net)

abbrev pub init_at : Option Ip → Dns → Net → Bool × Dns × Net
init_at none dns net = (false, dns, net)
init_at (some server) dns net =
    if ip_is_zero server
    then (false, dns, net)
    else bound server dns (bind dns_port (some response_handler) net)

-- `net_dns_init`, with the string that is configured. A server that is left over from a failure is
-- not used before a call succeeds.
unfoldable pub init : List ℕ → Dns → Net → Bool × Dns × Net
init configured dns net =
    if dns.ready then (true, dns, net) else init_at (parse_ipv4 configured) dns net

-- The header of a query, the name, and the type and class of the question.
abbrev pub query_bytes : ℕ → List ℕ → List ℕ
query_bytes id name = write_be16 id (
    write_be16 256 (
      write_be16 1
        (write_be16 0 (write_be16 0 (write_be16 0 (name ++ write_be16 1 (write_be16 1 [])))))))

abbrev pub start_query : List ℕ → ℕ → ℕ → Dns → Option (List ℕ) → Bool × Dns
start_query host callback context dns none = (false, dns)
start_query host callback context dns (some name) = (
  true,
  record dns {
    query_packet = query_bytes dns.next_id name;
    pending_host = host;
    pending_id = dns.next_id;
    next_id = (if (dns.next_id + 1) % 2 ^ 16 == 0 then 1 else (dns.next_id + 1) % 2 ^ 16);
    pending_callback = some callback;
    pending_context = context;
    attempts = 0;
    poll_ticks = poll_interval - 1;
    active = true;
  },
)

-- `net_dns_query` of a name and a callback that are not NULL.
unfoldable pub query : List ℕ → ℕ → ℕ → Dns → Bool × Dns
query host callback context dns =
    if not dns.ready || dns.active
    then (false, dns)
    else if (length host == 0) || ltb host_max (length host)
    then (false, dns)
    else start_query host callback context dns (encode_hostname host 496)

abbrev pub with_net : Net → Option Answer × Dns → Option Answer × Dns × Net
with_net net (answer, dns) = (answer, dns, net)

-- `net_dns_poll`
unfoldable pub poll : Dns → Net → Option Answer × Dns × Net
poll dns net =
    let ticks = (dns.poll_ticks + 1) % 2 ^ 32 in
    if not dns.active
    then (none, dns, net)
    else if ltb ticks poll_interval
    then (none, record dns { poll_ticks = ticks }, net)
    else if leb max_attempts dns.attempts
    then with_net net (finish_query false zero_ip (record dns { poll_ticks = 0 }))
    else (
      none,
      record dns { poll_ticks = 0; attempts = dns.attempts + 1 },
      (udp_send dns.dns_server dns_port source_port dns.query_packet net).1,
    )

-- What an event of the network means for a lookup.
abbrev pub on_call : Call → Dns → Option Answer × Dns
on_call call dns =
    if call.handler == response_handler
    then handle_response call.source_port call.source_ip call.payload dns
    else (none, dns)

abbrev pub on_event : Event → Dns → Option Answer × Dns
on_event (udp_call call) dns = on_call call dns
on_event nothing dns = (none, dns)
on_event (tcp_input src dst segment) dns = (none, dns)
