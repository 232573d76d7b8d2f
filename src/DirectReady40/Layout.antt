-- ===== src/DirectReady40/Layout.antt =====
-- `dr40_exact_system_layout` of src/direct_ready40.c: the table is a permutation of the expected one.
use mathlib.Core.Path.{subst}
use mathlib.Core.List.{Perm, Permᴰ}
use mathlib.Core.Logic.{∥∥₁_elim}
use mathlib.Core.Bool.{Bool-set}
use native.Mathlib.Nat.{ℕ_set}
use repair_box_psx_hdd_setup.Base.{
  ℕ, zero, suc, ◌+◌, ◌*◌, ◌^◌, ◌<◌, ◌≡◌, refl, sym, ap, ◌∙◌, ◌↔◌, inl, inr, Bool, true, false, not,
  some, ◌&&◌, ◌||◌, List, [], ◌∷◌, map, length, ◌==◌, ==_iff, eq_bytes, and_elim, if◌then◌else◌,
  Bool-cases, codes, arith,
}
use repair_box_psx_hdd_setup.FormatTest.{ExpectedApa, expected, expected_apa}
use repair_box_psx_hdd_setup.FormatTest.Keys.{
  same_key, occurrences, length-map, Perm-length, AllPresent, AllPresent→Perm, AllOnce→AllPresent,
  AllOnce-Perm, expected_AreDistinct, expected_AllOnce, same_key→eq,
}
use repair_box_psx_hdd_setup.Storage.{Partition, DeviceResult}
use repair_box_psx_hdd_setup.DirectReady40.Table.{
  find_entry, start_of, is_placed, entry_matches, dr40_exact_system_layout,
}

-- The name, the start and the size of an entry.
abbrev pub place_of : Partition → ExpectedApa
place_of entry = expected entry.name (start_of entry) (entry.hisize * 2 ^ 32 + entry.size)

size_test :
    (hisize size s : ℕ)
    → s < 2 ^ 32
    → ((hisize == 0) && (size == s)) ≡ ((hisize * 2 ^ 32 + size) == s)
size_test zero size s h = ground arith
size_test (suc n) size s h = ground (arith, h)

-- An entry with the name is placed as expected exactly when it has the expected key.
placed_key :
    (entry : Partition) (e : ExpectedApa)
    → e.size < 2 ^ 32
    → eq_bytes entry.name e.name ≡ true
    → ((start_of entry == e.start) && ((entry.hisize == 0) && (entry.size == e.size)))
      ≡ same_key e (place_of entry)
unfolding same_key
placed_key entry e h n =
    rw n (ap (λ b. (start_of entry == e.start) && b) (size_test entry.hisize entry.size e.size h))

unnamed_key :
    (entry : Partition) (e : ExpectedApa)
    → eq_bytes entry.name e.name ≡ false
    → same_key e (place_of entry) ≡ false
unfolding same_key
unnamed_key entry e n = rw n refl

-- A name that is found at its place is in the table.
placed→occurs :
    (e : ExpectedApa) (entries : List Partition)
    → e.size < 2 ^ 32
    → is_placed (find_entry entries e.name) e.start e.size ≡ true
    → 0 < occurrences e (map place_of entries)
unfolding is_placed find_entry occurrences
placed→occurs e [] s h = cc
placed→occurs e (entry ∷ entries) s h = elim (Bool-cases (eq_bytes entry.name e.name)) [
  | inl t ↦
      let h' : is_placed (some entry) e.start e.size ≡ true =
        subst
          (λ (b : Bool).
            is_placed (if b then some entry else find_entry entries e.name) e.start e.size ≡ true)
          t h in
      let k : same_key e (place_of entry) ≡ true = sym (placed_key entry e s t) ∙ h' in
      rw k (omega arith)
  | inr f ↦
      let h' : is_placed (find_entry entries e.name) e.start e.size ≡ true =
        subst
          (λ (b : Bool).
            is_placed (if b then some entry else find_entry entries e.name) e.start e.size ≡ true)
          f h in
      rw (unnamed_key entry e f) (placed→occurs e entries s h')
]

swapped : (x y z : Bool) → x && (y && z) ≡ y && (x && z)
swapped x y z = ground arith

either : (x y : Bool) → x || not y ≡ true → y ≡ true → x ≡ true
either x y h k = ground (arith, h, k)

neither : (x y : Bool) → x || y ≡ true → x ≡ false → y ≡ true
neither x y h k = ground (arith, h, k)

-- A key that is one of the list.
unfoldable is_among : List ExpectedApa → ExpectedApa → Bool
is_among [] k = false
is_among (e ∷ es) k = same_key e k || is_among es k

unfoldable are_among : List ExpectedApa → List ExpectedApa → Bool
are_among es [] = true
are_among es (k ∷ ks) = is_among es k && are_among es ks

-- No other key of the list has the name of `e`.
unfoldable is_only : ExpectedApa → List ExpectedApa → Bool
is_only e [] = true
is_only e (d ∷ es) = (same_key e d || not (eq_bytes d.name e.name)) && is_only e es

Perm-are_among :
    (es : List ExpectedApa) {xs ys : List ExpectedApa}
    → Permᴰ xs ys
    → are_among es xs ≡ are_among es ys
unfolding are_among
Perm-are_among es Permᴰ.nil = refl
Perm-are_among es (Permᴰ.cons q d) = rw (q, Perm-are_among es d) refl
Perm-are_among es (Permᴰ.swap {a' = k} {b' = l} p q) =
    rw (p, q) (swapped (is_among es l) (is_among es k) _)
Perm-are_among es (Permᴰ.trans p q) = Perm-are_among es p ∙ Perm-are_among es q

-- A key of the list with the name of `e` is `e`.
named_key :
    (e : ExpectedApa) (es : List ExpectedApa) (k : ExpectedApa)
    → is_only e es ≡ true
    → is_among es k ≡ true
    → eq_bytes k.name e.name ≡ true
    → same_key e k ≡ true
unfolding is_only is_among
named_key e [] k o a n = cc
named_key e (d ∷ es) k o a n =
    let u = and_elim (same_key e d || not (eq_bytes d.name e.name)) (is_only e es) o in
    elim (Bool-cases (same_key d k)) [
      | inl t ↦
          let same = same_key→eq d k t in
          let named : eq_bytes d.name e.name ≡ true =
            ap (λ (x : ExpectedApa). eq_bytes x.name e.name) (sym same) ∙ n in
          ap (same_key e) same ∙ either (same_key e d) _ u.0 named
      | inr f ↦ named_key e es k u.1 (neither (same_key d k) _ a f) n
    ]

occurs→placed :
    (e : ExpectedApa) (es : List ExpectedApa) (entries : List Partition)
    → e.size < 2 ^ 32
    → is_only e es ≡ true
    → are_among es (map place_of entries) ≡ true
    → 0 < occurrences e (map place_of entries)
    → is_placed (find_entry entries e.name) e.start e.size ≡ true
unfolding is_placed find_entry occurrences are_among
occurs→placed e es [] s o a h = absurd (omega (arith, h))
occurs→placed e es (entry ∷ entries) s o a h =
    let b = and_elim (is_among es (place_of entry)) (are_among es (map place_of entries)) a in
    elim (Bool-cases (eq_bytes entry.name e.name)) [
      | inl t ↦ let k = named_key e es (place_of entry) o b.0 t in rw (t, placed_key entry e s t) k
      | inr f ↦
          let later : 0 < occurrences e (map place_of entries) =
            subst
              (λ (b : Bool). 0 < (
                if b
                then suc (occurrences e (map place_of entries))
                else occurrences e (map place_of entries)))
              (unnamed_key entry e f) h in
          rw f (occurs→placed e es entries s o b.1 later)
    ]

expected_known : are_among expected_apa expected_apa ≡ true
unfolding are_among is_among same_key eq_bytes
expected_known = refl

-- The tests of the five places.
abbrev AllPlaced : List Partition → List ExpectedApa → Type 0
AllPlaced entries [] = Unit {0}
AllPlaced entries (e ∷ es) =
    (is_placed (find_entry entries e.name) e.start e.size ≡ true) × AllPlaced entries es

abbrev AreOnly : List ExpectedApa → List ExpectedApa → Type 0
AreOnly all [] = Unit {0}
AreOnly all (e ∷ es) = (e.size < 2 ^ 32) × (is_only e all ≡ true) × AreOnly all es

expected_AreOnly : AreOnly expected_apa expected_apa
unfolding is_only same_key eq_bytes
expected_AreOnly = (
  omega arith,
  refl,
  (omega arith, refl, (omega arith, refl, (omega arith, refl, (omega arith, refl, tt)))),
)

AllPlaced→AllPresent :
    (all es : List ExpectedApa) (entries : List Partition)
    → AreOnly all es
    → AllPlaced entries es
    → AllPresent es (map place_of entries)
AllPlaced→AllPresent all [] entries o h = tt
AllPlaced→AllPresent all (e ∷ es) entries o h =
    (placed→occurs e entries o.0 h.0, AllPlaced→AllPresent all es entries o.2 h.1)

AllPresent→AllPlaced :
    (all es : List ExpectedApa) (entries : List Partition)
    → AreOnly all es
    → are_among all (map place_of entries) ≡ true
    → AllPresent es (map place_of entries)
    → AllPlaced entries es
AllPresent→AllPlaced all [] entries o a h = tt
AllPresent→AllPlaced all (e ∷ es) entries o a h =
    (occurs→placed e all entries o.0 o.1 a h.0, AllPresent→AllPlaced all es entries o.2 a h.1)

five_tests :
    (a b c d e f : Bool)
    → (a && (b && (c && (d && (e && f)))) ≡ true)
      ↔ ((a ≡ true) × (b ≡ true) × (c ≡ true) × (d ≡ true) × (e ≡ true) × (f ≡ true))
five_tests a b c d e f = ground arith

-- The layout is accepted exactly when the partitions that the device lists, by name, start and size,
-- are a permutation of the five of a fresh disk.
pub exact_system_layout_iff :
    (device : DeviceResult)
    → (dr40_exact_system_layout device ≡ true) ↔ Perm (map place_of device.entries) expected_apa
unfolding dr40_exact_system_layout entry_matches
exact_system_layout_iff device =
    let keys = map place_of device.entries in
    let five = length device.entries == 5 in
    let test = λ (e : ExpectedApa). is_placed (find_entry device.entries e.name) e.start e.size in
    let g =
      five_tests five (test (expected (codes "__mbr") 0 0x40000))
        (test (expected (codes "__net") 0x40000 0x40000))
        (test (expected (codes "__system") 0x80000 0x80000))
        (test (expected (codes "__sysconf") 0x100000 0x100000))
        (test (expected (codes "__common") 0x200000 0x200000)) in
    (
      λ h.
          let p = g.0 h in
          AllPresent→Perm expected_apa keys expected_AreDistinct
            (AllPlaced→AllPresent expected_apa expected_apa device.entries expected_AreOnly
              (p.1, (p.2, (p.3, (p.4, (p.5, tt))))))
            (length-map place_of device.entries ∙ (==_iff (length device.entries) 5).0 p.0),
      λ perm.
          let count : length keys ≡ 5 = ∥∥₁_elim perm (ℕ_set (length keys) 5) Perm-length in
          let known : are_among expected_apa keys ≡ true =
            ∥∥₁_elim perm
              (Bool-set (are_among expected_apa keys) (are_among expected_apa expected_apa))
              (Perm-are_among expected_apa)
            ∙ expected_known in
          let present =
            AllOnce→AllPresent expected_apa keys
              (AllOnce-Perm expected_apa keys expected_apa perm expected_AllOnce) in
          let q =
            AllPresent→AllPlaced expected_apa expected_apa device.entries expected_AreOnly known
              present in
          g.1 (
            (==_iff (length device.entries) 5).1 (sym (length-map place_of device.entries) ∙ count),
            q.0,
            q.1.0,
            q.1.1.0,
            q.1.1.1.0,
            q.1.1.1.1.0,
          ),
    )
