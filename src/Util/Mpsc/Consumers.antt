-- ===== src/Util/Mpsc/Consumers.antt =====
-- src/util/mpsc.c: the consumer's steps keep the invariant.
use zero_tool_kit.Prelude.{
  ℕ, zero, suc, ◌+◌, ◌<◌, ◌≡◌, inl, inr, refl, sym, ap, ◌∙◌, true, List, [], ◌∷◌, ◌++◌, length,
  take, get_or, ltb, ◌==◌, u64, arith, Bool-cases,
}
use mathlib.Core.Path.{subst}
use zero_tool_kit.Util.Mpsc.{slot, is_ready, peek, release, advance}
use zero_tool_kit.Util.Mpsc.Steps.{
  Phase, unclaimed, claimed, written, published, resting, holding, leaving, World, read_step,
  release_step, advance_step,
}
use zero_tool_kit.Util.Mpsc.Window.{slot-apart, slot-wraps}
use zero_tool_kit.Util.Mpsc.Invariant.{
  front_of, front, seq_of, is_stored, HoldsHead, IsOrdered, seq_of_bounds,
}

take_snoc : (n : ℕ) (l : List ℕ) → n < length l → take (suc n) l ≡ take n l ++ (get_or l n 0 ∷ [])
take_snoc n [] h = absurd (omega arith)
take_snoc zero (x ∷ l) h = refl
take_snoc (suc n) (x ∷ l) h = ap (λ r. x ∷ r) (take_snoc n l (omega arith))

published_of : (k : ℕ) (p : Phase) → seq_of k p ≡ k + 1 → p ≡ published
published_of k unclaimed e = absurd (omega arith)
published_of k claimed e = absurd (omega arith)
published_of k written e = absurd (omega arith)
published_of k published e = refl

-- A cell at the head that is ready holds the item of the head's position.
ready_head :
    (w : World)
    → IsOrdered w
    → w.consumer ≡ resting
    → is_ready w.queue ≡ true
    → (w.queue.head < w.queue.tail)
      × (w.phase w.queue.head ≡ published)
      × (peek w.queue ≡ get_or w.pushed w.queue.head 0)
unfolding is_ready peek
ready_head w v rest ready = elim (Bool-cases (ltb w.queue.head w.queue.tail)) [
  | inl used ↦
      let lt : w.queue.head < w.queue.tail = ground arith in
      let number = v.used_seq w.queue.head (omega (arith, at_head)) lt in
      let p : w.phase w.queue.head ≡ published =
        published_of w.queue.head (w.phase w.queue.head)
          (ground (arith, v.small, number, seq_of_bounds w.queue.head (w.phase w.queue.head))) in
      (lt, p, v.used_item w.queue.head (omega (arith, at_head)) lt (ap is_stored p))
  | inr empty ↦
      absurd (
        ground
          (arith, v.small, v.front_le, at_head, v.masked.at_least_two, v.free_seq w.queue.head))
]
  where
    at_head : front w ≡ w.queue.head
    at_head = ap (front_of w.queue.head) rest

pub ready_published :
    (w : World)
    → IsOrdered w
    → w.consumer ≡ resting
    → is_ready w.queue ≡ true
    → w.phase w.queue.head ≡ published
ready_published w v rest ready = let (lt, p, item) = ready_head w v rest ready in p

pub published_ready :
    (w : World)
    → IsOrdered w
    → w.consumer ≡ resting
    → w.phase w.queue.head ≡ published
    → is_ready w.queue ≡ true
unfolding is_ready
published_ready w v rest p =
    let at_head : front w ≡ w.queue.head = ap (front_of w.queue.head) rest in
    let lt : w.queue.head < w.queue.tail = ground (arith, v.later w.queue.head) in
    let number = v.used_seq w.queue.head (omega (arith, at_head)) lt in
    let next = ap (seq_of w.queue.head) p in ground (arith, v.small, number, next)

pub read-IsOrdered :
    (w : World)
    → IsOrdered w
    → w.consumer ≡ resting
    → is_ready w.queue ≡ true
    → IsOrdered (read_step w)
unfolding read_step
read-IsOrdered w v rest ready =
    let (lt, p, item) = ready_head w v rest ready in
    record {
      masked = v.masked;
      front_le = omega (arith, v.front_le, at_head);
      room = omega (arith, v.room, at_head);
      small = v.small;
      numbered = v.numbered;
      in_order = v.in_order ∙ ap (λ n. take n w.pushed) at_head;
      free_seq = λ k le lt. v.free_seq k le (omega (arith, at_head));
      used_seq = λ k le lt. v.used_seq k (omega (arith, at_head)) lt;
      used_item = λ k le lt has. v.used_item k (omega (arith, at_head)) lt has;
      later = v.later;
      earlier = λ k lt. v.earlier k (omega (arith, at_head));
      seen_free = λ k saw le. omega (arith, v.seen_free k saw le, at_head);
      hand = (item, lt, p);
    }
  where
    at_head : front w ≡ w.queue.head
    at_head = ap (front_of w.queue.head) rest

pub release-IsOrdered :
    (w : World) (item : ℕ)
    → IsOrdered w
    → w.consumer ≡ holding item
    → IsOrdered (release_step item w)
unfolding release_step release
release-IsOrdered w item v holds =
    let (same, lt, p) = in_hand in
    let up : u64 (w.queue.head + w.queue.mask + 1) ≡ w.queue.head + w.queue.cap =
      omega (arith, v.masked.size, v.small) in
    let suc_head : suc w.queue.head ≡ w.queue.head + 1 = omega arith in
    record {
      masked = v.masked;
      front_le = omega (arith, lt);
      room = omega (arith, v.room, at_head);
      small = v.small;
      numbered = v.numbered;
      in_order =
          ap (λ l. l ++ (item ∷ [])) (v.in_order ∙ ap (λ n. take n w.pushed) at_head)
          ∙ ap (λ x. take w.queue.head w.pushed ++ (x ∷ [])) same
          ∙ sym (take_snoc w.queue.head w.pushed (omega (arith, v.numbered)))
          ∙ ap (λ n. take n w.pushed) suc_head;
      free_seq = λ k le lt'. elim (Bool-cases (k == w.queue.head + w.queue.cap)) [
        | inl around ↦
            let e : k ≡ w.queue.head + w.queue.cap = ground arith in
            let e' : slot w.queue.mask k ≡ slot w.queue.mask w.queue.head =
              ap (slot w.queue.mask) e
              ∙ slot-wraps w.queue.cap w.queue.mask v.masked w.queue.head in
            ground arith
        | inr other ↦ ground (
          arith,
          at_head,
          v.free_seq k,
          slot-apart w.queue.cap w.queue.mask v.masked w.queue.head k,
        )
      ];
      used_seq = λ k le lt'. ground (
        arith,
        at_head,
        v.room,
        v.used_seq k,
        slot-apart w.queue.cap w.queue.mask v.masked w.queue.head k,
      );
      used_item = λ k le lt' has. v.used_item k (omega (arith, at_head)) lt' has;
      later = v.later;
      earlier = λ k lt'. elim (Bool-cases (k == w.queue.head)) [
        | inl last ↦ let e : k ≡ w.queue.head = ground arith in ap w.phase e ∙ p
        | inr other ↦ v.earlier k (ground (arith, at_head))
      ];
      seen_free = λ k saw le. omega (arith, v.seen_free k saw le, at_head);
      hand = tt;
    }
  where
    at_head : front w ≡ w.queue.head
    at_head = ap (front_of w.queue.head) holds

    in_hand :
        (item ≡ get_or w.pushed w.queue.head 0)
        × (w.queue.head < w.queue.tail)
        × (w.phase w.queue.head ≡ published)
    in_hand =
        subst (HoldsHead w.pushed w.queue.head w.queue.tail (w.phase w.queue.head)) holds v.hand

pub advance-IsOrdered :
    (w : World) → IsOrdered w → w.consumer ≡ leaving → IsOrdered (advance_step w)
unfolding advance_step advance
advance-IsOrdered w v gone =
    let up : u64 (w.queue.head + 1) ≡ w.queue.head + 1 =
      omega (arith, at_next, v.front_le, v.small) in
    rw up (record {
      masked = v.masked;
      front_le = omega (arith, v.front_le, at_next);
      room = omega (arith, v.room, at_next);
      small = v.small;
      numbered = v.numbered;
      in_order = v.in_order ∙ ap (λ n. take n w.pushed) at_next;
      free_seq = λ k le lt. v.free_seq k le (omega (arith, at_next));
      used_seq = λ k le lt. v.used_seq k (omega (arith, at_next)) lt;
      used_item = λ k le lt has. v.used_item k (omega (arith, at_next)) lt has;
      later = v.later;
      earlier = λ k lt. v.earlier k (omega (arith, at_next));
      seen_free = λ k saw le. omega (arith, v.seen_free k saw le, at_next);
      hand = tt;
    })
  where
    at_next : front w ≡ w.queue.head + 1
    at_next = ap (front_of w.queue.head) gone
