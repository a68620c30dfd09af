-- ===== src/Bootmem/Tests.antt =====
-- Runs of kernel/bootmem.c on a small structure, and the theorems at them.
use os.Base.{ℕ, ◌-◌, ◌^◌, ◌≡◌, refl, true, false, List, [], ◌∷◌, none, arith, length, get_or}
use os.Bootmem.{Boot, total_size, tags_walk_ok, walk_from, read_entries}
use os.Bootmem.Chain.{Chain, tags_walk_ok-Chain}

-- A structure of 48 bytes: a name of 13 bytes in a tag, then the end.
abbrev bytes : List ℕ
bytes = 48 ∷ 0 ∷ 0 ∷ 0 ∷ 0 ∷ 0 ∷ 0 ∷ 0 ∷ 2 ∷ 0 ∷ 0 ∷ 0 ∷ 13 ∷ 0 ∷ 0 ∷ 0 ∷ 71 ∷ 82 ∷ 85 ∷ 66 ∷ 0 ∷ []

abbrev sample : ℕ → ℕ
sample a = get_or bytes a 0

abbrev nothing : Boot
nothing = record {
  info = record {
    has_framebuffer = false;
    addr = 0;
    pitch = 0;
    width = 0;
    height = 0;
    bpp = 0;
    framebuffer_type = 0;
    red = 0;
    green = 0;
    blue = 0;
    cmdline = none;
    boot_loader = none;
    tags_offset = 0;
    region_count = 0;
  };
  regions = [];
}

sample_walk : tags_walk_ok sample 8 ≡ true
unfolding tags_walk_ok walk_from
sample_walk = refl

-- The sum of an offset and an entry size near 2 ^ 32 wraps, and an entry is read that is not in the tag.
read_entries_wraps : length (read_entries 1 sample 8 16 (2 ^ 32 - 1) 16) ≡ 1
unfolding read_entries
read_entries_wraps = refl

tags_walk_ok-Chain_example : Chain sample (total_size sample) 8
tags_walk_ok-Chain_example = tags_walk_ok-Chain sample 8 (omega arith) sample_walk
