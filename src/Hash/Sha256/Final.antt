-- ===== src/Hash/Sha256/Final.antt =====
-- `sha256_final` of src/sha256.c against the padded message, and the digest of an input that is
-- given in any number of pieces.
use mathlib.Core.List.{flatten}
use repair_box_psx_hdd_setup.Base.{
  ℕ, ◌+◌, ◌-◌, ◌*◌, ◌/◌, ◌%◌, ◌≤◌, ◌<◌, ◌≡◌, refl, sym, ap, ap₂, ◌∙◌, List, [], ◌∷◌, ◌++◌, foldl,
  append_assoc, append-nil, length, replicate, length-append, length-replicate, replicate-append,
  ltb, ltb→lt, if_intro, u64, arith,
}
use repair_box_psx_hdd_setup.Hash.Padding.{
  absorb, absorb-append, absorb_full, absorb-fold_blocks, length-absorb, be64, zero_count, padding,
  padded, length-padded, reference,
}
use repair_box_psx_hdd_setup.Hash.Sha256.{
  State, Context, transform, fill, compress, close_block, last_block, initial_state, sha256_init,
  sha256_update, sha256_final, digest_of,
}
use repair_box_psx_hdd_setup.Hash.Sha256.Streaming.{
  IsContext, waiting, pending, pending-fill, length-waiting, pending-compress, fill-partial,
  fill-full, pending-update_loop, total_bytes-update_loop,
}

-- A byte and zeros behind it that fill the buffer, which is full after the byte at the latest.
close_full :
    (c : Context) (b : ℕ) (zs : List ℕ)
    → IsContext c
    → c.block_used + 1 + length zs ≡ 64
    → (pending (compress (fill (fill c (b ∷ [])) zs)) ≡ absorb transform (pending c) (b ∷ zs))
      × IsContext (compress (fill (fill c (b ∷ [])) zs))
close_full c b zs fits h =
    let one = pending-fill c (b ∷ []) fits.whole (omega arith) in
    let two = pending-fill (fill c (b ∷ [])) zs one.1 (omega arith) in
    let done = pending-compress (fill (fill c (b ∷ [])) zs) two.1 (omega arith) in
    let used = length-waiting c fits.whole (omega arith) in
    (
      done.0
          ∙ (ap (λ (q : State × List ℕ). (transform q.0 q.1, [])) two.0
              ∙ (ap (λ (q : State × List ℕ). (transform q.0 (q.1 ++ zs), [])) one.0
                  ∙ (ap (λ p. (transform c.state p, [])) (append_assoc (waiting c) (b ∷ []) zs)
                      ∙ sym (
                          absorb_full transform (b ∷ zs) c.state (waiting c) (omega arith)
                            (omega arith))))),
      done.1,
    )

-- What `close_block` leaves: the byte 0x80 and `zeros` zeros are taken in, and there is room for the
-- length.
record IsClosed (c d : Context) : Type 0 where
  zeros : ℕ
  taken : pending d ≡ absorb transform (pending c) (0x80 ∷ replicate zeros 0)
  context : IsContext d
  room : d.block_used ≤ 56
  same : d.total_bytes ≡ c.total_bytes
  sum : zeros + (56 - d.block_used) ≡ (119 - c.block_used) % 64

close_block-IsClosed : (c : Context) → IsContext c → IsClosed c (close_block c)
unfolding close_block
close_block-IsClosed c fits =
    if_intro (IsClosed c) (ltb 56 marked.block_used)
      (compress (fill marked (replicate (64 - marked.block_used) 0))) marked
      (λ e. full (ltb→lt 56 marked.block_used e)) (λ e. roomy (ground arith))
  where
    marked : Context
    marked = fill c (0x80 ∷ [])

    one :
        (pending marked ≡ (c.state, waiting c ++ (0x80 ∷ [])))
        × (length marked.block ≡ 64)
        × (marked.block_used ≡ c.block_used + 1)
    one = pending-fill c (0x80 ∷ []) fits.whole (omega (arith, fits.room))

    full :
        56 < marked.block_used
        → IsClosed c (compress (fill marked (replicate (64 - marked.block_used) 0)))
    full h =
        let n : ℕ = 64 - marked.block_used in
        let done =
          close_full c 0x80 (replicate n 0) fits
            (omega (arith, one, fits.room, length-replicate {0} {A = ℕ} n 0)) in
        record {
          zeros = n;
          taken = done.0;
          context = done.1;
          room = unfold compress in omega arith;
          same = unfold compress fill in refl;
          sum = unfold compress in omega (arith, one, fits.room);
        }

    roomy : marked.block_used ≤ 56 → IsClosed c marked
    roomy h =
        let done = fill-partial c (0x80 ∷ []) fits (omega (arith, one)) in
        record {
          zeros = 0;
          taken = done.0;
          context = done.1;
          room = h;
          same = unfold fill in refl;
          sum = omega (arith, one);
        }

-- The last block takes in zeros up to 56 bytes and the length, which fill it.
last_block_state :
    (d : Context)
    → IsContext d
    → d.block_used ≤ 56
    → (last_block d).state
      ≡ (absorb transform
          (pending d)
          (replicate (56 - d.block_used) 0 ++ be64 (u64 (d.total_bytes * 8)))).0
unfolding last_block
last_block_state d fits room =
    let zs : List ℕ = replicate (56 - d.block_used) 0 in
    let ls : List ℕ = be64 (u64 (d.total_bytes * 8)) in
    let n = length-replicate {0} {A = ℕ} (56 - d.block_used) 0 in
    let zeroed = fill-partial d zs fits (omega arith) in
    let used = (pending-fill d zs fits.whole (omega arith)).2 in
    let filled = fill-full (fill d zs) ls zeroed.1 (omega arith) in
    ap (λ (q : State × List ℕ). q.0) filled.0
    ∙ (ap (λ q. (absorb transform q ls).0) zeroed.0
        ∙ ap (λ (q : State × List ℕ). q.0) (sym (absorb-append transform (pending d) zs ls)))

-- `context` is what the calls so far have made of `message`.
pub record Represents (context : Context) (message : List ℕ) : Type 0 where
  pub well_formed : IsContext context
  pub taken : pending context ≡ absorb transform (initial_state, []) message
  pub counted : context.total_bytes ≡ u64 (length message)

module _ (context : Context) (message : List ℕ) (rep : Represents context message) where
  block_used-mod : context.block_used ≡ length message % 64
  block_used-mod =
      let waits = length-waiting context rep.well_formed.whole (omega arith) in
      let taken = ap (λ (q : State × List ℕ). length q.1) rep.taken in
      omega (arith, waits, taken, length-absorb transform message initial_state [] (omega arith))

  final_state_lem :
      (last_block (close_block context)).state ≡ reference transform initial_state message
  final_state_lem =
      let d : Context = close_block context in
      let closed = close_block-IsClosed context rep.well_formed in
      let zs : List ℕ = replicate (56 - d.block_used) 0 in
      let ls : List ℕ = be64 (u64 (d.total_bytes * 8)) in
      let bits : u64 (d.total_bytes * 8) ≡ u64 (length message * 8) =
        omega (arith, closed.same, rep.counted) in
      let zeros : closed.zeros + (56 - d.block_used) ≡ zero_count (length message) =
        omega (arith, closed.sum, block_used-mod) in
      let start : State × List ℕ = (initial_state, []) in
      let body : (0x80 ∷ replicate closed.zeros 0) ++ (zs ++ ls) ≡ padding (length message) =
        ap (λ t. 0x80 ∷ t)
          (sym (append_assoc (replicate closed.zeros 0) zs ls)
            ∙ (ap (λ t. t ++ ls) (replicate-append closed.zeros (56 - d.block_used) 0)
                ∙ ap₂ (λ k n. replicate k 0 ++ be64 n) zeros bits)) in
      last_block_state d closed.context closed.room
      ∙ (ap (λ q. (absorb transform q (zs ++ ls)).0) (closed.taken)
          ∙ (ap (λ (q : State × List ℕ). q.0)
                (sym (
                  absorb-append transform (pending context) (0x80 ∷ replicate closed.zeros 0)
                    (zs ++ ls)))
              ∙ (ap₂ (λ q t. (absorb transform q t).0) rep.taken body
                  ∙ (ap (λ (q : State × List ℕ). q.0)
                        (sym (absorb-append transform start message (padding (length message))))
                      ∙ ap (λ (q : State × List ℕ). q.0)
                          (absorb-fold_blocks transform (length (padded message) / 64) initial_state
                            (padded message) (length-padded message))))))

-- A fresh context stands for the empty message.
pub sha256_init-Represents :
    (block : List ℕ) → length block ≡ 64 → Represents (sha256_init block) []
unfolding sha256_init
sha256_init-Represents block h = record {
  well_formed = record { room = omega arith; whole = h };
  taken = refl;
  counted = refl;
}

-- An update appends its input to the message.
pub sha256_update-Represents :
    (c : Context) (m input : List ℕ)
    → Represents c m
    → Represents (sha256_update c input) (m ++ input)
unfolding sha256_update
sha256_update-Represents c m input rep =
    let c' : Context = record c { total_bytes = u64 (c.total_bytes + length input) } in
    let fits' : IsContext c' = record {
      room = rep.well_formed.room;
      whole = rep.well_formed.whole;
    } in
    let done = pending-update_loop (length input) c' input (omega arith) fits' in
    record {
      well_formed = done.1;
      taken =
          done.0
          ∙ (ap (λ q. absorb transform q input) rep.taken
              ∙ sym (absorb-append transform (initial_state, []) m input));
      counted =
          total_bytes-update_loop (length input) c' input
          ∙ omega (arith, rep.counted, length-append {0} m input);
    }

updates-Represents :
    (chunks : List (List ℕ)) (c : Context) (m : List ℕ)
    → Represents c m
    → Represents (foldl sha256_update c chunks) (m ++ flatten chunks)
unfolding flatten
updates-Represents [] c m rep = rw append-nil rep
updates-Represents (x ∷ chunks) c m rep =
    rw (← append_assoc m x (flatten chunks))
      (updates-Represents chunks (sha256_update c x) (m ++ x) (sha256_update-Represents c m x rep))

-- The digest is the padded block fold of the message.
pub sha256_final-Represents :
    (c : Context) (m : List ℕ)
    → Represents c m
    → sha256_final c ≡ digest_of (reference transform initial_state m)
unfolding sha256_final
sha256_final-Represents c m rep = ap digest_of (final_state_lem c m rep)

-- The digest of `sha256_final`, after `sha256_init` and any number of calls of `sha256_update`, is
-- the padded block fold of all the input, whatever its split over the calls, and whatever the
-- 64-byte buffer held before.
pub sha256_streaming :
    (block : List ℕ) (chunks : List (List ℕ))
    → length block ≡ 64
    → sha256_final (foldl sha256_update (sha256_init block) chunks)
      ≡ digest_of (reference transform initial_state (flatten chunks))
unfolding sha256_final
sha256_streaming block chunks h = ap digest_of (
    final_state_lem (foldl sha256_update (sha256_init block) chunks) (flatten chunks)
      (updates-Represents chunks (sha256_init block) [] (sha256_init-Represents block h)))
