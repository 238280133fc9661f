-- ===== src/Util/Mpsc/Order.antt =====
-- src/util/mpsc.c: what every interleaving of the producers and the consumer keeps.
use zero_tool_kit.Prelude.{
  ℕ, ◌+◌, ◌^◌, ◌≤◌, ◌<◌, ◌≡◌, ◌↔◌, inl, inr, refl, sym, ap, ◌∙◌, Bool, true, some, List, ◌++◌,
  length, drop, length-drop, take-append-drop, ◌==◌, if◌then◌else◌, arith, Bool-cases,
}
use native.Mathlib.Nat.{mod-eq_of_lt}
use zero_tool_kit.Util.Mpsc.{
  Queue, free, full, slot, judge, claim, write, publish, is_ready, release, advance, create,
}
use zero_tool_kit.Util.Mpsc.Steps.{
  published, resting, World, see_step, claim_step, write_step, publish_step, read_step,
  release_step, advance_step, Step, do_see, do_claim, do_write, do_publish, do_read, do_release,
  do_advance, Reach, here, next, opened,
}
use zero_tool_kit.Util.Mpsc.Window.{create-IsMasked}
use zero_tool_kit.Util.Mpsc.Invariant.{front, IsOrdered, judge_full}
use zero_tool_kit.Util.Mpsc.Producers.{
  see-IsOrdered, claim-IsOrdered, write-IsOrdered, publish-IsOrdered,
}
use zero_tool_kit.Util.Mpsc.Consumers.{
  read-IsOrdered, release-IsOrdered, advance-IsOrdered, ready_published, published_ready,
}

Step-IsOrdered : (w t : World) → Step w t → IsOrdered w → IsOrdered t
Step-IsOrdered w t (do_see pos le e q) v = rw q (see-IsOrdered w pos v le e)
Step-IsOrdered w t (do_claim pos item saw small q) v = rw q (claim-IsOrdered w pos item v saw small)
Step-IsOrdered w t (do_write pos mine q) v = rw q (write-IsOrdered w pos v mine)
Step-IsOrdered w t (do_publish pos mine q) v = rw q (publish-IsOrdered w pos v mine)
Step-IsOrdered w t (do_read rest ready q) v = rw q (read-IsOrdered w v rest ready)
Step-IsOrdered w t (do_release item holds q) v = rw q (release-IsOrdered w item v holds)
Step-IsOrdered w t (do_advance gone q) v = rw q (advance-IsOrdered w v gone)

Reach-IsOrdered : {w t : World} → IsOrdered w → Reach w t → IsOrdered t
Reach-IsOrdered v here = v
Reach-IsOrdered v (next {t} {u} r st) = Step-IsOrdered t u st (Reach-IsOrdered v r)

opened-IsOrdered :
    (calloc_queue calloc_cells : Bool) (cap_pow2 : ℕ) {q : Queue}
    → cap_pow2 < 2 ^ 62
    → create calloc_queue calloc_cells cap_pow2 ≡ some q
    → IsOrdered (opened q)
unfolding slot
opened-IsOrdered calloc_queue calloc_cells cap_pow2 {q} small made =
    let (masked, c, h, t, s) = create-IsMasked calloc_queue calloc_cells cap_pow2 made in
    record {
      masked = masked;
      front_le = omega arith;
      room = omega arith;
      small = omega arith;
      numbered = omega arith;
      in_order = rw h refl;
      free_seq = λ k le lt.
          ap (λ f. f (slot q.mask k)) s ∙ masked.remainder k ∙ mod-eq_of_lt (omega (arith, lt, h));
      used_seq = λ k le lt. absurd (omega arith);
      used_item = λ k le lt has. absurd (omega arith);
      later = λ k le. refl;
      earlier = λ k lt. absurd (omega arith);
      seen_free = λ k saw le. cc;
      hand = tt;
    }

Step-cap : (w t : World) → Step w t → t.queue.cap ≡ w.queue.cap
unfolding see_step claim_step write_step publish_step read_step release_step advance_step claim
    write publish release advance
Step-cap w t (do_see pos le e q) = ap (λ u. u.queue.cap) q
Step-cap w t (do_claim pos item saw small q) =
    ap (λ u. u.queue.cap) q
    ∙ elim (Bool-cases (w.queue.tail == pos)) [ inl won ↦ rw won refl | inr lost ↦ rw lost refl ]
Step-cap w t (do_write pos mine q) = ap (λ u. u.queue.cap) q
Step-cap w t (do_publish pos mine q) = ap (λ u. u.queue.cap) q
Step-cap w t (do_read rest ready q) = ap (λ u. u.queue.cap) q
Step-cap w t (do_release item holds q) = ap (λ u. u.queue.cap) q
Step-cap w t (do_advance gone q) = ap (λ u. u.queue.cap) q

sized :
    (calloc_queue calloc_cells : Bool) (cap_pow2 : ℕ) {q : Queue}
    → create calloc_queue calloc_cells cap_pow2 ≡ some q
    → q.cap ≡ cap_pow2
sized calloc_queue calloc_cells cap_pow2 made =
    let (masked, c, h, t, s) = create-IsMasked calloc_queue calloc_cells cap_pow2 made in c

Reach-cap : {w t : World} → Reach w t → t.queue.cap ≡ w.queue.cap
Reach-cap here = refl
Reach-cap (next {t} {u} r st) = Step-cap t u st ∙ Reach-cap r

-- Whatever the producers and the consumer do, in any order, the items come out in the order in
-- which their positions were claimed, none is lost, none comes twice, and at most `cap_pow2` are claimed
-- and not yet popped. (Fewer than 2 ^ 63 items in all, and a capacity below 2 ^ 62.)
pub popped_in_order :
    (calloc_queue calloc_cells : Bool) (cap_pow2 : ℕ) {q : Queue} {t : World}
    → cap_pow2 < 2 ^ 62
    → create calloc_queue calloc_cells cap_pow2 ≡ some q
    → Reach (opened q) t
    → (rest : List ℕ) × (t.pushed ≡ t.popped ++ rest) × (length rest ≤ cap_pow2)
popped_in_order calloc_queue calloc_cells cap_pow2 {q} {t} small made r =
    let v = Reach-IsOrdered (opened-IsOrdered calloc_queue calloc_cells cap_pow2 small made) r in
    let c = Reach-cap r ∙ sized calloc_queue calloc_cells cap_pow2 made in
    (
      drop (front t) t.pushed,
      sym (take-append-drop (front t) t.pushed)
          ∙ ap (λ l. l ++ drop (front t) t.pushed) (sym v.in_order),
      omega (arith, length-drop (front t) t.pushed, v.room, v.numbered, c),
    )

-- A producer that has loaded the tail and found nobody between is refused with ZTK_ERR_AGAIN exactly
-- when `cap_pow2` claimed items have not been freed, and is never sent round its loop again. A consumer
-- that rests finds an item exactly when the producer of the position at the head has published it.
pub refused_only_full :
    (calloc_queue calloc_cells : Bool) (cap_pow2 : ℕ) {q : Queue} {t : World}
    → cap_pow2 < 2 ^ 62
    → create calloc_queue calloc_cells cap_pow2 ≡ some q
    → Reach (opened q) t
    → (judge t.queue t.queue.tail ≡ (if t.queue.tail == front t + cap_pow2 then full else free))
      × (t.consumer ≡ resting → (is_ready t.queue ≡ true) ↔ (t.phase t.queue.head ≡ published))
refused_only_full calloc_queue calloc_cells cap_pow2 {q} {t} small made r =
    let v = Reach-IsOrdered (opened-IsOrdered calloc_queue calloc_cells cap_pow2 small made) r in
    let c = Reach-cap r ∙ sized calloc_queue calloc_cells cap_pow2 made in
    (
      (rw (← c) (judge_full t v)),
      (λ rest. (λ ready. ready_published t v rest ready, published_ready t v rest)),
    )
