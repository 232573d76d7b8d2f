-- ===== src/Bootflag/Scan/Keys.antt =====
-- The payload as a list of keys: what the loop of `bootflag_inspect_image` accepts.
use repair_box_psx_hdd_setup.Base.{
  ℕ, zero, suc, ◌+◌, ◌≤◌, ◌<◌, ◌≡◌, refl, ap, ap₂, ◌∙◌, inl, inr, true, false, some, List, [], ◌∷◌,
  ◌++◌, length, replicate, length-append, ◌==◌, ==_iff, and_elim, Bool-cases, Option-cases,
  HasNoNul, arith,
}
use repair_box_psx_hdd_setup.Bootflag.Scan.{
  KeyScan, KeyKind, bootmode_key, classify, count_key, split_key, all_zero, scan_keys,
}

-- Keys, each with its NUL, and `n` zeros behind them.
abbrev pub print_keys : List (List ℕ) → ℕ → List ℕ
print_keys [] n = replicate n 0
print_keys (k ∷ ks) n = k ++ (0 ∷ print_keys ks n)

-- A key is not empty and holds no NUL.
abbrev pub AreKeys : List (List ℕ) → Type 0
AreKeys [] = Unit {0}
AreKeys (k ∷ ks) = (0 < length k) × HasNoNul k × AreKeys ks

-- The keys counted one after the other, from an offset of the payload on.
unfoldable pub count_keys : ℕ → List (List ℕ) → KeyScan → KeyScan
count_keys offset [] s = s
count_keys offset (k ∷ ks) s =
    count_keys (offset + length k + 1) ks (count_key offset k (classify k) s)

split_key-append : (k rest : List ℕ) → HasNoNul k → split_key (k ++ (0 ∷ rest)) ≡ some (k, rest)
unfolding split_key
split_key-append [] rest h = refl
split_key-append (x ∷ k) rest h = ground (arith, h.0, split_key-append k rest h.1)

pub record IsSplit (xs k rest : List ℕ) : Type 0 where
  pub joined : xs ≡ k ++ (0 ∷ rest)
  pub clean : HasNoNul k

pub split_key-IsSplit : (xs k rest : List ℕ) → split_key xs ≡ some (k, rest) → IsSplit xs k rest
unfolding split_key
split_key-IsSplit [] k rest h = cc
split_key-IsSplit (x ∷ xs) [] rest h = ground arith
split_key-IsSplit (x ∷ xs) (y ∷ k) rest h = ground (arith, split_key-IsSplit xs k rest)

all_zero-replicate : (n : ℕ) → all_zero (replicate n 0) ≡ true
unfolding all_zero
all_zero-replicate zero = refl
all_zero-replicate (suc n) = all_zero-replicate n

all_zero-eq : (xs : List ℕ) → all_zero xs ≡ true → xs ≡ replicate (length xs) 0
unfolding all_zero
all_zero-eq [] h = refl
all_zero-eq (x ∷ xs) h =
    let both = and_elim (x == 0) (all_zero xs) h in
    ap₂ ◌∷◌ ((==_iff x 0).0 both.0) (all_zero-eq xs both.1)

payload_valid-count_key :
    (offset : ℕ) (k : List ℕ) (kind : KeyKind) (s : KeyScan)
    → (count_key offset k kind s).payload_valid ≡ s.payload_valid
unfolding count_key
payload_valid-count_key offset k bootmode_key s = refl
payload_valid-count_key offset k _ s = refl

-- Of a payload that `print_keys` has written, with a zero behind its keys, the loop of
-- `bootflag_inspect_image` counts the keys one after the other, and finds it valid.
pub scan_keys-print_keys :
    (ks : List (List ℕ)) (n fuel offset : ℕ) (s : KeyScan)
    → AreKeys ks
    → length (print_keys ks (suc n)) ≤ fuel
    → scan_keys fuel offset (print_keys ks (suc n)) s
      ≡ record (count_keys offset ks s) { payload_valid = true }
unfolding scan_keys count_keys
scan_keys-print_keys [] n zero offset s h l = absurd (omega arith)
scan_keys-print_keys (k ∷ ks) n zero offset s h l =
    absurd (omega (arith, length-append {0} k (0 ∷ print_keys ks (suc n))))
scan_keys-print_keys [] n (suc fuel) offset s h l = rw (all_zero-replicate (suc n))
scan_keys-print_keys ([] ∷ ks) n (suc fuel) offset s h l = absurd (omega arith)
scan_keys-print_keys ((x ∷ k) ∷ ks) n (suc fuel) offset s h l =
    let rest : List ℕ = print_keys ks (suc n) in
    let key : List ℕ = x ∷ k in
    ground (
      arith,
      h.1.0,
      split_key-append key rest h.1,
      scan_keys-print_keys ks n fuel (offset + length key + 1)
          (count_key offset key (classify key) s) h.2
          (omega (arith, length-append {0} k (0 ∷ rest))),
    )

-- A payload that is `print_keys` of something.
pub record IsPayload (xs : List ℕ) (ks : List (List ℕ)) (n : ℕ) : Type 0 where
  pub printed : xs ≡ print_keys ks (suc n)
  pub keys : AreKeys ks

cons-IsPayload :
    (x : ℕ) (xs key rest : List ℕ) (ks : List (List ℕ)) (n : ℕ)
    → (x == 0) ≡ false
    → split_key (x ∷ xs) ≡ some (key, rest)
    → IsPayload rest ks n
    → IsPayload (x ∷ xs) (key ∷ ks) n
cons-IsPayload x xs [] rest ks n nz e p =
    absurd (ground (arith, IsSplit.joined (split_key-IsSplit (x ∷ xs) [] rest e)))
cons-IsPayload x xs (y ∷ key) rest ks n nz e p =
    let split = split_key-IsSplit (x ∷ xs) (y ∷ key) rest e in
    record {
      printed = split.joined ∙ ap (λ t. (y ∷ key) ++ (0 ∷ t)) p.printed;
      keys = (omega arith, split.clean, p.keys);
    }

-- A payload that the loop finds valid is made of keys.
pub scan_keys-IsPayload :
    (fuel offset : ℕ) (xs : List ℕ) (s : KeyScan)
    → s.payload_valid ≡ false
    → (scan_keys fuel offset xs s).payload_valid ≡ true
    → (ks : List (List ℕ)) × (n : ℕ) × IsPayload xs ks n
unfolding scan_keys
scan_keys-IsPayload zero offset xs s e h = cc
scan_keys-IsPayload (suc fuel) offset [] s e h = cc
scan_keys-IsPayload (suc fuel) offset (x ∷ xs) s e h = elim (Bool-cases (x == 0)) [
  | inl z ↦ elim (Bool-cases (all_zero (x ∷ xs))) [
    | inl zs ↦ ([], length xs, record { printed = all_zero-eq (x ∷ xs) zs; keys = tt })
    | inr bad ↦ absurd (ground arith)
  ]
  | inr nz ↦ elim (Option-cases (split_key (x ∷ xs))) [
    | inl stop ↦ absurd (ground arith)
    | inr ((key, rest), split) ↦
        let later =
          scan_keys-IsPayload fuel (offset + length key + 1) rest
            (count_key offset key (classify key) s)
            (payload_valid-count_key offset key (classify key) s ∙ e) (ground arith) in
        (key ∷ later.0, later.1, cons-IsPayload x xs key rest later.0 later.1 nz split later.2)
  ]
]
