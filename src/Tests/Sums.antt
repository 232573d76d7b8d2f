-- ===== src/Tests/Sums.antt =====
-- The line of the checksum file, at a digest.
use repair_box_psx_hdd_setup.Base.{ℕ, zero, suc, ◌≡◌, refl, some, [], ◌∷◌, ◌++◌, replicate, arith}
use repair_box_psx_hdd_setup.Hash.Hex.{hex_digits}
use repair_box_psx_hdd_setup.Bootstrap.{sum_name, parse_sum}
use repair_box_psx_hdd_setup.Bootstrap.Sums.{lower, AreBytes, parse_sum-hex_digits}

AreBytes-replicate : (n : ℕ) → AreBytes (replicate n 0xab)
AreBytes-replicate zero = tt
AreBytes-replicate (suc n) = (omega arith, AreBytes-replicate n)

parse_sum-hex_digits_example :
    parse_sum (hex_digits lower (replicate 32 0xab) ++ (32 ∷ 32 ∷ (sum_name ++ (0 ∷ []))))
    ≡ some (replicate 32 0xab)
parse_sum-hex_digits_example =
    parse_sum-hex_digits (replicate 32 0xab) [] (AreBytes-replicate 32) refl
