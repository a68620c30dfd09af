-- ===== src/Str/Tests.antt =====
-- kernel/string.c at concrete texts and addresses.
use os.Base.{◌≡◌, some, arith}
use os.Str.{katoi, kutoa, kmemmove}
use os.Str.Digits.{katoi-kutoa}
use os.Str.Move.{kmemmove_lem}

katoi-kutoa_example : katoi (some (kutoa 48879 16)) 16 ≡ 48879
katoi-kutoa_example = katoi-kutoa 48879 16 (omega arith) (omega arith) (omega arith)

-- Four bytes, two of them to where the first two were read from.
kmemmove_lem_example : kmemmove 102 100 4 (λ a. a) 103 ≡ 101
kmemmove_lem_example = kmemmove_lem 102 100 4 (λ a. a) 103 (omega arith) (omega arith)
