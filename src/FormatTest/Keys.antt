-- ===== src/FormatTest/Keys.antt =====
-- Lists of places of partitions, by name, start and size, as the tests of layouts compare them: each of
-- the expected places being there, in a list of the same length, makes the list a permutation.
use mathlib.Core.Path.{subst}
use mathlib.Core.List.{Perm, Permᴰ}
use mathlib.Core.List.Perm
use mathlib.Core.Logic.{∥∥₁_elim}
use native.Mathlib.Nat.{ℕ_set}
use repair_box_psx_hdd_setup.Base.{
  ℕ, suc, ◌<◌, ◌≡◌, refl, ap, ap₂, ◌∙◌, Bool, true, false, ◌&&◌, List, [], ◌∷◌, map, length, ◌==◌,
  ==_iff, eq_bytes, eq_bytes→eq, and_elim, if◌then◌else◌, Bool-cases, inl, inr, arith,
}
use repair_box_psx_hdd_setup.FormatTest.{ExpectedApa, expected, expected_apa}

unfoldable pub same_key : ExpectedApa → ExpectedApa → Bool
same_key e k = eq_bytes k.name e.name && ((k.start == e.start) && (k.size == e.size))

pub same_key→eq : (e k : ExpectedApa) → same_key e k ≡ true → k ≡ e
unfolding same_key
same_key→eq e k h =
    let a = and_elim (eq_bytes k.name e.name) ((k.start == e.start) && (k.size == e.size)) h in
    let b = and_elim (k.start == e.start) (k.size == e.size) a.1 in
    let name = eq_bytes→eq k.name e.name a.0 in
    let start = (==_iff k.start e.start).0 b.0 in
    let size = (==_iff k.size e.size).0 b.1 in
    ap₂ (λ n (s : ℕ × ℕ). expected n s.0 s.1) name (ap₂ (λ x y. (x, y)) start size)

unfoldable pub occurrences : ExpectedApa → List ExpectedApa → ℕ
occurrences e [] = 0
occurrences e (k ∷ ks) = let rest = occurrences e ks in if same_key e k then suc rest else rest

-- Removing one key takes one from its own count and nothing from the others.
unfoldable remove_one : ExpectedApa → List ExpectedApa → List ExpectedApa
remove_one e [] = []
remove_one e (k ∷ ks) = let rest = remove_one e ks in if same_key e k then ks else k ∷ rest

remove_one-Perm :
    (e : ExpectedApa) (ks : List ExpectedApa) → 0 < occurrences e ks → Perm ks (e ∷ remove_one e ks)
unfolding occurrences remove_one
remove_one-Perm e [] h = absurd (omega arith)
remove_one-Perm e (k ∷ ks) h = elim (Bool-cases (same_key e k)) [
  | inl t ↦ rw (t, same_key→eq e k t) (Perm.refl (e ∷ ks))
  | inr f ↦
      let some_left : 0 < occurrences e ks =
        subst (λ (b : Bool). 0 < (if b then suc (occurrences e ks) else occurrences e ks)) f h in
      rw f (
        Perm.trans (Perm.cons k (remove_one-Perm e ks some_left)) (Perm.swap e k (remove_one e ks)))
]

swapped :
    (x y : Bool) (n : ℕ)
    → (if x then suc (if y then suc n else n) else if y then suc n else n)
      ≡ (if y then suc (if x then suc n else n) else if x then suc n else n)
swapped true true n = refl
swapped true false n = refl
swapped false true n = refl
swapped false false n = refl

pub length-map : {A B : Type 0} (f : A → B) (xs : List A) → length (map f xs) ≡ length xs
length-map f [] = refl
length-map f (x ∷ xs) = ap suc (length-map f xs)

Perm-occurrences :
    (e : ExpectedApa) {xs ys : List ExpectedApa} → Permᴰ xs ys → occurrences e xs ≡ occurrences e ys
unfolding occurrences
Perm-occurrences e Permᴰ.nil = refl
Perm-occurrences e (Permᴰ.cons q d) = rw (q, Perm-occurrences e d) refl
Perm-occurrences e (Permᴰ.swap {a' = k} {b' = l} p q) =
    rw (p, q) (swapped (same_key e l) (same_key e k) _)
Perm-occurrences e (Permᴰ.trans p q) = Perm-occurrences e p ∙ Perm-occurrences e q

pub Perm-length : {xs ys : List ExpectedApa} → Permᴰ xs ys → length xs ≡ length ys
Perm-length Permᴰ.nil = refl
Perm-length (Permᴰ.cons q d) = ap suc (Perm-length d)
Perm-length (Permᴰ.swap p q) = refl
Perm-length (Permᴰ.trans p q) = Perm-length p ∙ Perm-length q

length-remove_one :
    (e : ExpectedApa) (ks : List ExpectedApa)
    → 0 < occurrences e ks
    → suc (length (remove_one e ks)) ≡ length ks
unfolding occurrences remove_one
length-remove_one e [] h = absurd (omega arith)
length-remove_one e (k ∷ ks) h = elim (Bool-cases (same_key e k)) [
  | inl t ↦ rw t refl
  | inr f ↦
      let some_left : 0 < occurrences e ks =
        subst (λ (b : Bool). 0 < (if b then suc (occurrences e ks) else occurrences e ks)) f h in
      rw f (ap suc (length-remove_one e ks some_left))
]

occurrences-remove_one :
    (e d : ExpectedApa) (ks : List ExpectedApa)
    → same_key d e ≡ false
    → occurrences d (remove_one e ks) ≡ occurrences d ks
unfolding occurrences remove_one
occurrences-remove_one e d [] h = refl
occurrences-remove_one e d (k ∷ ks) h = elim (Bool-cases (same_key e k)) [
  | inl t ↦
      let apart : same_key d k ≡ false = ap (same_key d) (same_key→eq e k t) ∙ h in
      rw (t, apart) refl
  | inr f ↦ rw (f, occurrences-remove_one e d ks h) refl
]

-- Each key of the first list is once in the second.
abbrev pub AllOnce : List ExpectedApa → List ExpectedApa → Type 0
AllOnce [] ks = Unit {0}
AllOnce (e ∷ es) ks = (occurrences e ks ≡ 1) × AllOnce es ks

abbrev pub AllApart : ExpectedApa → List ExpectedApa → Type 0
AllApart e [] = Unit {0}
AllApart e (d ∷ es) = (same_key d e ≡ false) × AllApart e es

abbrev pub AreDistinct : List ExpectedApa → Type 0
AreDistinct [] = Unit {0}
AreDistinct (e ∷ es) = AllApart e es × AreDistinct es

-- Each key of the first list is in the second.
abbrev pub AllPresent : List ExpectedApa → List ExpectedApa → Type 0
AllPresent [] ks = Unit {0}
AllPresent (e ∷ es) ks = (0 < occurrences e ks) × AllPresent es ks

AllPresent-remove_one :
    (e : ExpectedApa) (es ks : List ExpectedApa)
    → AllApart e es
    → AllPresent es ks
    → AllPresent es (remove_one e ks)
AllPresent-remove_one e [] ks a h = tt
AllPresent-remove_one e (d ∷ es) ks a h =
    let same = occurrences-remove_one e d ks a.0 in
    (omega (arith, same, h.0), AllPresent-remove_one e es ks a.1 h.1)

pub AllPresent→Perm :
    (es ks : List ExpectedApa)
    → AreDistinct es
    → AllPresent es ks
    → length ks ≡ length es
    → Perm ks es
AllPresent→Perm [] [] d h l = Perm.refl []
AllPresent→Perm [] (k ∷ ks) d h l = absurd (omega arith)
AllPresent→Perm (e ∷ es) ks d h l =
    let shorter = length-remove_one e ks h.0 in
    Perm.trans (remove_one-Perm e ks h.0) (
      Perm.cons e (
        AllPresent→Perm es (remove_one e ks) d.1 (AllPresent-remove_one e es ks d.0 h.1)
          (omega (arith, shorter))))

pub AllOnce→AllPresent : (es ks : List ExpectedApa) → AllOnce es ks → AllPresent es ks
AllOnce→AllPresent [] ks h = tt
AllOnce→AllPresent (e ∷ es) ks h = (omega (arith, h.0), AllOnce→AllPresent es ks h.1)

pub expected_AreDistinct : AreDistinct expected_apa
unfolding same_key eq_bytes
expected_AreDistinct = (
  (refl, (refl, (refl, (refl, tt)))),
  ((refl, (refl, (refl, tt))), ((refl, (refl, tt)), ((refl, tt), (tt, tt)))),
)

pub AllOnce-Perm : (es ks ls : List ExpectedApa) → Perm ks ls → AllOnce es ls → AllOnce es ks
AllOnce-Perm [] ks ls p h = tt
AllOnce-Perm (e ∷ es) ks ls p h = (
  ∥∥₁_elim p (ℕ_set (occurrences e ks) (occurrences e ls)) (Perm-occurrences e) ∙ h.0,
  AllOnce-Perm es ks ls p h.1,
)

pub expected_AllOnce : AllOnce expected_apa expected_apa
unfolding occurrences same_key eq_bytes
expected_AllOnce = (refl, (refl, (refl, (refl, (refl, tt)))))
