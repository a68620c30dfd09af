-- ===== src/Bootmem.antt =====
-- kernel/bootmem.c: the tags that the boot loader hands over. The structure is its bytes, as a
-- function of the offset. Printing is left out.
pub mod Chain
pub mod Parse
mod Tests
use os.Base.{
  ℕ, zero, suc, ◌+◌, ◌-◌, ◌*◌, ◌/◌, ◌%◌, ◌^◌, Bool, true, false, ◌&&◌, ◌||◌, Option, none, some,
  List, [], ◌∷◌, ◌==◌, ltb, leb, if◌then◌else◌, length,
}

abbrev pub u32 : ℕ → ℕ
u32 n = n % 2 ^ 32

abbrev pub read_le32 : (ℕ → ℕ) → ℕ → ℕ
read_le32 p a = p a + p (a + 1) * 2 ^ 8 + p (a + 2) * 2 ^ 16 + p (a + 3) * 2 ^ 24

abbrev pub read_le64 : (ℕ → ℕ) → ℕ → ℕ
read_le64 p a = read_le32 p a + read_le32 p (a + 4) * 2 ^ 32

-- info->total_size
abbrev pub total_size : (ℕ → ℕ) → ℕ
total_size info = read_le32 info 0

-- (size + 7) & ~7u
abbrev pub rounded : ℕ → ℕ
rounded size = u32 (size + 7) / 8 * 8

-- The loop of `tags_walk_ok`, with the steps that are left.
pub walk_from : ℕ → (ℕ → ℕ) → ℕ → ℕ → ℕ → Bool
walk_from zero info off budget used = false
walk_from (suc n) info off budget used =
    let t = off + used in
    let size = read_le32 info (t + 4) in
    let next = u32 (used + rounded size) in
    let rest = walk_from n info off budget next in
    if read_le32 info t == 0
    then true
    else if ltb size 8
    then false
    else if ltb (u32 (budget + 2 ^ 32 - used)) size
    then false
    else if leb budget next
    then false
    else rest

pub tags_walk_ok : (ℕ → ℕ) → ℕ → Bool
unfolding walk_from
tags_walk_ok info off =
    if ltb off 8 || leb (total_size info) off
    then false
    else walk_from 256 info off (total_size info - off) 0

-- The candidates 8, 12, ..., 60, with the number that is left; 0 if none is good.
pub find_tags : ℕ → (ℕ → ℕ) → ℕ → ℕ
unfolding tags_walk_ok
find_tags zero info cand = 0
find_tags (suc n) info cand =
    let rest = find_tags n info (cand + 4) in if tags_walk_ok info cand then cand else rest

-- `mem_map_entry_t`, without its reserved word.
pub record Region : Type 0 where
  pub base : ℕ
  pub size : ℕ
  pub kind : ℕ

abbrev pub max_regions : ℕ
max_regions = 48

-- The inner loop of `bootmem_read_mmap` on the tag at `t`, with the slots that are left.
pub read_entries : ℕ → (ℕ → ℕ) → ℕ → ℕ → ℕ → ℕ → List Region
read_entries zero info t size entry_size entries_off = []
read_entries (suc n) info t size entry_size entries_off =
    let e = t + entries_off in
    let r : Region = record {
      base = read_le64 info e;
      size = read_le64 info (e + 8);
      kind = read_le32 info (e + 16);
    } in
    let rest = read_entries n info t size entry_size (u32 (entries_off + entry_size)) in
    if leb (u32 (entries_off + entry_size)) size then r ∷ rest else []

-- The regions in the tag at `t`.
abbrev pub regions_of : (ℕ → ℕ) → ℕ → List Region
unfolding read_entries
regions_of info t =
    let entry_size = read_le32 info (t + 8) in
    if ltb entry_size 24
    then []
    else read_entries max_regions info t (read_le32 info (t + 4)) entry_size 16

-- `bootmem_read_mmap` with the fuel of its loop.
pub read_mmap : ℕ → (ℕ → ℕ) → ℕ → ℕ → ℕ → Option (List Region)
unfolding read_entries
read_mmap zero info off budget used = none
read_mmap (suc f) info off budget used =
    let t = off + used in
    let size = read_le32 info (t + 4) in
    let rest = read_mmap f info off budget (u32 (used + rounded size)) in
    if ltb budget (u32 (used + 8))
    then some []
    else if read_le32 info t == 0
    then some []
    else if (read_le32 info t == 6) && leb 16 size
    then some (regions_of info t)
    else if ltb size 8
    then some []
    else rest

-- `bootmem_display_t`; the strings are offsets in the structure.
pub record BootInfo : Type 0 where
  pub has_framebuffer : Bool
  pub addr : ℕ
  pub pitch : ℕ
  pub width : ℕ
  pub height : ℕ
  pub bpp : ℕ
  pub framebuffer_type : ℕ
  pub red : ℕ
  pub green : ℕ
  pub blue : ℕ
  pub cmdline : Option ℕ
  pub boot_loader : Option ℕ
  pub tags_offset : ℕ
  pub region_count : ℕ

-- `boot_info` and the regions in `g_bootmem_regions`.
pub record Boot : Type 0 where
  pub info : BootInfo
  pub regions : List Region

-- A framebuffer tag of at least 32 bytes.
abbrev pub with_framebuffer : (ℕ → ℕ) → ℕ → BootInfo → BootInfo
with_framebuffer p t i =
    let coloured = (p (t + 29) == 1) && leb 35 (read_le32 p (t + 4)) in
    record i {
      addr = read_le64 p (t + 8);
      pitch = read_le32 p (t + 16);
      width = read_le32 p (t + 20);
      height = read_le32 p (t + 24);
      bpp = p (t + 28);
      framebuffer_type = p (t + 29);
      red = if coloured then p (t + 32) else 16;
      green = if coloured then p (t + 33) else 8;
      blue = if coloured then p (t + 34) else 0;
      has_framebuffer = true;
    }

abbrev pub with_regions : Boot → Option (List Region) → Option Boot
with_regions b none = none
with_regions b (some rs) = some (record b { regions = rs })

-- What `bootmem_parse_multiboot` takes from the tag at `t`. None means that the fuel ran out.
pub take_tag : ℕ → (ℕ → ℕ) → ℕ → ℕ → ℕ → Boot → Option Boot
unfolding read_mmap
take_tag f p off budget t b =
    let kind = read_le32 p t in
    let size = read_le32 p (t + 4) in
    let read = with_regions b (read_mmap f p off budget 0) in
    if (kind == 1) && ltb 8 size
    then some (record b { info = record b.info { cmdline = some (t + 8) } })
    else if (kind == 2) && ltb 8 size
    then some (record b { info = record b.info { boot_loader = some (t + 8) } })
    else if kind == 6
    then read
    else if (kind == 8) && leb 32 size
    then some (record b { info = with_framebuffer p t b.info })
    else some b

-- The loop ends after a tag that is too small.
abbrev pub after_tag : Bool → (Boot → Option Boot) → Option Boot → Option Boot
after_tag small rest none = none
after_tag small rest (some b) = if small then some b else rest b

-- The second loop of `bootmem_parse_multiboot`, with its fuel and that of `read_mmap`.
pub parse_from : ℕ → ℕ → (ℕ → ℕ) → ℕ → ℕ → ℕ → Boot → Option Boot
unfolding take_tag
parse_from zero g p off budget used b = none
parse_from (suc f) g p off budget used b =
    let t = off + used in
    let size = read_le32 p (t + 4) in
    let rest : Boot → Option Boot = parse_from f g p off budget (u32 (used + rounded size)) in
    if ltb budget (u32 (used + 8))
    then some b
    else if read_le32 p t == 0
    then some b
    else after_tag (ltb size 8) rest (take_tag g p off budget t b)

-- The fields that `bootmem_parse_multiboot` resets first.
abbrev pub reset : Boot → Boot
reset b = record {
  info = record b.info { has_framebuffer = false; cmdline = none; boot_loader = none };
  regions = [];
}

abbrev pub counted : Option Boot → Option Boot
counted none = none
counted (some b) = some (record b { info = record b.info { region_count = length b.regions } })

abbrev pub parse_at : (ℕ → ℕ) → ℕ → Boot → Option Boot
unfolding parse_from
parse_at p off b =
    if off == 0
    then some b
    else counted (
        parse_from 257 257 p off (total_size p - off) 0
          (record b { info = record b.info { tags_offset = off } }))

-- `bootmem_parse_multiboot` of a structure that is not NULL.
pub parse_multiboot : (ℕ → ℕ) → Boot → Option Boot
unfolding find_tags parse_at
parse_multiboot p b =
    if ltb (total_size p) 32 then some (reset b) else parse_at p (find_tags 14 p 8) (reset b)
