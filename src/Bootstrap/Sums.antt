-- ===== src/Bootstrap/Sums.antt =====
-- The parser of the checksum line of src/bootstrap.c reads what `sha256_to_hex` of src/sha256.c
-- prints.
use repair_box_psx_hdd_setup.Base.{
  ℕ, zero, suc, ◌<◌, ◌≡◌, refl, sym, ap, ◌∙◌, Bool, true, false, ◌&&◌, Option, none, some, List, [],
  ◌∷◌, ◌++◌, append_assoc, append-nil, length, get_or, codes, ◌>>>◌, bit_and, c_string, eq_bytes,
  and_elim, if◌then◌else◌, arith, ◌==◌, ==_iff, Bool-cases, inl, inr,
}
use repair_box_psx_hdd_setup.Hash.Hex.{hex_digits}
use repair_box_psx_hdd_setup.Bootstrap.{
  hex_value, hex_byte, sum_name, parse_name, parse_digits, parse_sum,
}

abbrev pub lower : List ℕ
lower = codes "0123456789abcdef"

-- The two digits of a byte, read again.
abbrev reread : ℕ → Option ℕ
reread b =
    hex_byte (hex_value (get_or lower (b >>> 4) 0)) (hex_value (get_or lower (bit_and b 0x0f) 0))

same : Option ℕ → ℕ → Bool
same none b = false
same (some c) b = c == b

same-eq : (o : Option ℕ) (b : ℕ) → same o b ≡ true → o ≡ some b
unfolding same
same-eq none b h = cc
same-eq (some c) b h = ap some ((==_iff c b).0 h)

-- Every byte below a bound is read again as itself.
reread_upto : ℕ → Bool
reread_upto zero = true
reread_upto (suc n) = same (reread n) n && reread_upto n

reread_byte : (n b : ℕ) → reread_upto n ≡ true → b < n → reread b ≡ some b
unfolding reread_upto
reread_byte zero b h l = absurd (omega arith)
reread_byte (suc n) b h l =
    let both = and_elim (same (reread n) n) (reread_upto n) h in
    elim (Bool-cases (b == n)) [
      | inl e ↦ rw ((==_iff b n).0 e) (same-eq (reread n) n both.0)
      | inr e ↦ reread_byte n b both.1 (ground arith)
    ]

all_bytes : reread_upto 256 ≡ true
unfolding reread_upto same hex_byte hex_value
all_bytes = refl

abbrev pub AreBytes : List ℕ → Type 0
AreBytes [] = Unit {0}
AreBytes (b ∷ bs) = (b < 256) × AreBytes bs

parse_digits-hex_digits :
    (digest done rest : List ℕ)
    → AreBytes digest
    → parse_digits (length digest) done (hex_digits lower digest ++ rest)
      ≡ (if parse_name rest then some (done ++ digest) else none)
unfolding parse_digits hex_digits
parse_digits-hex_digits [] done rest h = rw (append-nil done) refl
parse_digits-hex_digits (b ∷ digest) done rest h =
    rw (reread_byte 256 b all_bytes h.0, parse_digits)
      (parse_digits-hex_digits digest (done ++ (b ∷ [])) rest h.1
        ∙ ap (λ d. if parse_name rest then some d else none) (append_assoc done (b ∷ []) digest))

-- A line with the digits that `sha256_to_hex` prints for a digest of 32 bytes, two blanks, the name
-- of the file and a newline, with a NUL behind it, is parsed to the digest.
pub parse_sum-hex_digits :
    (digest rest : List ℕ)
    → AreBytes digest
    → length digest ≡ 32
    → parse_sum (hex_digits lower digest ++ (32 ∷ 32 ∷ (sum_name ++ (0 ∷ rest)))) ≡ some digest
unfolding parse_sum parse_name c_string eq_bytes
parse_sum-hex_digits digest rest h l =
    ap (λ n. parse_digits n [] (hex_digits lower digest ++ (32 ∷ 32 ∷ (sum_name ++ (0 ∷ rest)))))
      (sym l)
    ∙ parse_digits-hex_digits digest [] (32 ∷ 32 ∷ (sum_name ++ (0 ∷ rest))) h
