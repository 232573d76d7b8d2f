-- ===== src/Bootflag/Scan/Counts.antt =====
-- What the loop of `bootflag_inspect_image` has counted after a list of keys, in terms of how often
-- each setting occurs among them.
use repair_box_psx_hdd_setup.Base.{
  ℕ, ◌+◌, ◌≤◌, ◌≡◌, sym, ◌∙◌, Bool, true, false, not, ◌&&◌, ◌||◌, List, [], ◌∷◌, length, ltb, codes,
  eq_bytes, has_prefix, eq_bytes→eq, arith, if◌then◌else◌,
}
use repair_box_psx_hdd_setup.Bootflag.Scan.{KeyScan, classify, count_key}
use repair_box_psx_hdd_setup.Bootflag.Scan.Keys.{count_keys}

-- How many keys pass a test.
abbrev pub count_if : (List ℕ → Bool) → List (List ℕ) → ℕ
count_if p [] = 0
count_if p (k ∷ ks) = (if p k then 1 else 0) + count_if p ks

abbrev pub is_bootmode : List ℕ → Bool
is_bootmode k = eq_bytes k (codes "BOOTMODE=Normal")

abbrev pub is_repartition : List ℕ → Bool
is_repartition k = eq_bytes k (codes "repartition=40")

abbrev pub is_contents : List ℕ → Bool
is_contents k = eq_bytes k (codes "contents=1")

-- One of the three settings with another value.
abbrev pub is_conflict : List ℕ → Bool
is_conflict k =
    (has_prefix k (codes "BOOTMODE=") && not (is_bootmode k))
    || ((has_prefix k (codes "repartition=") && not (is_repartition k))
        || (has_prefix k (codes "contents=") && not (is_contents k)))

-- A text has at most one of the three prefixes, and a setting has its own.
record PrefixFacts (k : List ℕ) : Type 0 where
  bootmode :
      has_prefix k (codes "BOOTMODE=") ≡ true
      → (has_prefix k (codes "repartition=") ≡ false) × (has_prefix k (codes "contents=") ≡ false)
  repartition :
      has_prefix k (codes "repartition=") ≡ true → has_prefix k (codes "contents=") ≡ false
  is_bootmode_prefix : is_bootmode k ≡ true → has_prefix k (codes "BOOTMODE=") ≡ true
  is_repartition_prefix : is_repartition k ≡ true → has_prefix k (codes "repartition=") ≡ true
  is_contents_prefix : is_contents k ≡ true → has_prefix k (codes "contents=") ≡ true

prefix_facts : (k : List ℕ) → PrefixFacts k
unfolding has_prefix
prefix_facts k = record {
  bootmode = first k;
  repartition = second k;
  is_bootmode_prefix = λ h. rw (eq_bytes→eq k (codes "BOOTMODE=Normal") h);
  is_repartition_prefix = λ h. rw (eq_bytes→eq k (codes "repartition=40") h);
  is_contents_prefix = λ h. rw (eq_bytes→eq k (codes "contents=1") h);
}
  where
    first :
        (k : List ℕ)
        → has_prefix k (codes "BOOTMODE=") ≡ true
        → (has_prefix k (codes "repartition=") ≡ false) × (has_prefix k (codes "contents=") ≡ false)
    first [] h = cc
    first (x ∷ k) h = ground arith

    second :
        (k : List ℕ)
        → has_prefix k (codes "repartition=") ≡ true
        → has_prefix k (codes "contents=") ≡ false
    second [] h = cc
    second (x ∷ k) h = ground arith

abbrev pub is_unknown : List ℕ → Bool
is_unknown k =
    not (has_prefix k (codes "BOOTMODE="))
    && (not (has_prefix k (codes "repartition=")) && not (has_prefix k (codes "contents=")))

-- One key.
record Counted (k : List ℕ) (s t : KeyScan) : Type 0 where
  bootmode : t.bootmode_count ≡ (if is_bootmode k then 1 else 0) + s.bootmode_count
  repartition : t.repartition_count ≡ (if is_repartition k then 1 else 0) + s.repartition_count
  contents : t.contents_count ≡ (if is_contents k then 1 else 0) + s.contents_count
  unknown : t.unknown_key_count ≡ (if is_unknown k then 1 else 0) + s.unknown_key_count
  conflict :
      t.conflicting_value
      ≡ ((is_conflict k || (is_bootmode k && ltb 1 (s.bootmode_count + 1)))
          || ((is_repartition k && ltb 1 (s.repartition_count + 1))
              || (is_contents k && ltb 1 (s.contents_count + 1))))
        || s.conflicting_value

count_key-Counted :
    (offset : ℕ) (k : List ℕ) (s : KeyScan) → Counted k s (count_key offset k (classify k) s)
unfolding classify count_key
count_key-Counted offset k s =
    let facts = prefix_facts k in
    record {
      bootmode = ground (arith, facts);
      repartition = ground (arith, facts);
      contents = ground (arith, facts);
      unknown = ground (arith, facts);
      conflict = ground (arith, facts);
    }

-- All keys.
pub record Totals (ks : List (List ℕ)) (s t : KeyScan) : Type 0 where
  pub bootmode : t.bootmode_count ≡ count_if is_bootmode ks + s.bootmode_count
  pub repartition : t.repartition_count ≡ count_if is_repartition ks + s.repartition_count
  pub contents : t.contents_count ≡ count_if is_contents ks + s.contents_count
  pub unknown : t.unknown_key_count ≡ count_if is_unknown ks + s.unknown_key_count

pub count_keys-Totals :
    (offset : ℕ) (ks : List (List ℕ)) (s : KeyScan) → Totals ks s (count_keys offset ks s)
unfolding count_keys
count_keys-Totals offset [] s = omega arith
count_keys-Totals offset (k ∷ ks) s =
    let one = count_key-Counted offset k s in
    let rest = count_keys-Totals (offset + length k + 1) ks (count_key offset k (classify k) s) in
    record {
      bootmode = omega (arith, one.bootmode, rest.bootmode);
      repartition = omega (arith, one.repartition, rest.repartition);
      contents = omega (arith, one.contents, rest.contents);
      unknown = omega (arith, one.unknown, rest.unknown);
    }

-- Each setting was met at most once.
pub record AtMostOnce (s : KeyScan) : Type 0 where
  pub bootmode : s.bootmode_count ≤ 1
  pub repartition : s.repartition_count ≤ 1
  pub contents : s.contents_count ≤ 1

conflict_kept :
    (offset : ℕ) (ks : List (List ℕ)) (s : KeyScan)
    → (count_keys offset ks s).conflicting_value ≡ false
    → s.conflicting_value ≡ false
unfolding count_keys
conflict_kept offset [] s h = h
conflict_kept offset (k ∷ ks) s h =
    let one = count_key-Counted offset k s in
    let later = conflict_kept (offset + length k + 1) ks (count_key offset k (classify k) s) h in
    ground (arith, one.conflict, later)

-- What a scan without a conflict has met.
pub record IsCalm (ks : List (List ℕ)) (s : KeyScan) : Type 0 where
  pub conflicts : count_if is_conflict ks ≡ 0
  pub bootmode : count_if is_bootmode ks + s.bootmode_count ≤ 1
  pub repartition : count_if is_repartition ks + s.repartition_count ≤ 1
  pub contents : count_if is_contents ks + s.contents_count ≤ 1

once_more :
    (offset : ℕ) (k : List ℕ) (s : KeyScan)
    → AtMostOnce s
    → (count_key offset k (classify k) s).conflicting_value ≡ false
    → AtMostOnce (count_key offset k (classify k) s) × (is_conflict k ≡ false)
once_more offset k s a h =
    let one = count_key-Counted offset k s in
    let quiet = sym one.conflict ∙ h in
    (
      record {
        bootmode = ground (arith, one.bootmode, quiet);
        repartition = ground (arith, one.repartition, quiet);
        contents = ground (arith, one.contents, quiet);
      },
      ground (arith, quiet),
    )

pub conflict-IsCalm :
    (offset : ℕ) (ks : List (List ℕ)) (s : KeyScan)
    → AtMostOnce s
    → (count_keys offset ks s).conflicting_value ≡ false
    → IsCalm ks s
unfolding count_keys
conflict-IsCalm offset [] s a h = omega arith
conflict-IsCalm offset (k ∷ ks) s a h =
    let next : KeyScan = count_key offset k (classify k) s in
    let one = count_key-Counted offset k s in
    let quiet = once_more offset k s a (conflict_kept (offset + length k + 1) ks next h) in
    let rest = conflict-IsCalm (offset + length k + 1) ks next quiet.0 h in
    record {
      conflicts = ground (arith, quiet.1, rest.conflicts);
      bootmode = omega (arith, one.bootmode, rest.bootmode);
      repartition = omega (arith, one.repartition, rest.repartition);
      contents = omega (arith, one.contents, rest.contents);
    }

pub IsCalm-conflict :
    (offset : ℕ) (ks : List (List ℕ)) (s : KeyScan)
    → s.conflicting_value ≡ false
    → IsCalm ks s
    → (count_keys offset ks s).conflicting_value ≡ false
unfolding count_keys
IsCalm-conflict offset [] s e c = e
IsCalm-conflict offset (k ∷ ks) s e c =
    let next : KeyScan = count_key offset k (classify k) s in
    let one = count_key-Counted offset k s in
    IsCalm-conflict (offset + length k + 1) ks next
      (one.conflict ∙ ground (arith, c.conflicts, c.bootmode, c.repartition, c.contents))
      (record {
        conflicts = ground (arith, c.conflicts);
        bootmode = omega (arith, one.bootmode, c.bootmode);
        repartition = omega (arith, one.repartition, c.repartition);
        contents = omega (arith, one.contents, c.contents);
      })
