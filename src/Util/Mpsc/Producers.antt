-- ===== src/Util/Mpsc/Producers.antt =====
-- src/util/mpsc.c: the producers' steps keep the invariant.
use zero_tool_kit.Prelude.{
  ℕ, zero, suc, ◌+◌, ◌^◌, ◌≤◌, ◌<◌, ◌≡◌, ◌≢◌, ◌⊎◌, inl, inr, refl, sym, ap, ◌∙◌, true, List, [],
  ◌∷◌, ◌++◌, length, get_or, length-append, take-append_le, ◌==◌, u64, arith, Bool-cases,
}
use zero_tool_kit.Util.Mpsc.{free, judge, claim, write, publish}
use zero_tool_kit.Util.Mpsc.Steps.{
  Phase, claimed, written, published, Consumer, resting, holding, leaving, World, marked, see_step,
  claim_step, write_step, publish_step,
}
use zero_tool_kit.Util.Mpsc.Invariant.{front, HoldsHead, IsOrdered, slots_ne, judge_tail}

get_or-append_lt : (l m : List ℕ) (k : ℕ) → k < length l → get_or (l ++ m) k 0 ≡ get_or l k 0
get_or-append_lt [] m k h = absurd (omega arith)
get_or-append_lt (x ∷ l) m zero h = refl
get_or-append_lt (x ∷ l) m (suc k) h = get_or-append_lt l m k (omega arith)

pub see-IsOrdered :
    (w : World) (pos : ℕ)
    → IsOrdered w
    → pos ≤ w.queue.tail
    → judge w.queue pos ≡ free
    → IsOrdered (see_step pos w)
unfolding see_step
see-IsOrdered w pos v le e = record {
  masked = v.masked;
  front_le = v.front_le;
  room = v.room;
  small = v.small;
  numbered = v.numbered;
  in_order = v.in_order;
  free_seq = v.free_seq;
  used_seq = v.used_seq;
  used_item = v.used_item;
  later = v.later;
  earlier = v.earlier;
  seen_free = λ k saw le'. elim (Bool-cases (k == pos)) [
    | inl same ↦
        let at_tail : pos ≡ w.queue.tail = ground arith in
        let free_there : judge w.queue w.queue.tail ≡ free = ap (judge w.queue) (sym at_tail) ∙ e in
        ground (arith, judge_tail w v free_there)
    | inr other ↦ v.seen_free k (ground arith) le'
  ];
  hand = v.hand;
}

-- A position in the hands of a producer is claimed and not yet freed.
in_use :
    (w : World) (k : ℕ)
    → IsOrdered w
    → w.phase k ≡ claimed ⊎ (w.phase k ≡ written)
    → (front w ≤ k) × (k < w.queue.tail)
in_use w k v h = (ground (arith, v.earlier k), ground (arith, v.later k))

-- A claim of the tail leaves the consumer's item where it is.
claim-HoldsHead :
    (pushed : List ℕ) (head tail item : ℕ) (phase : ℕ → Phase) (c : Consumer)
    → length pushed ≡ tail
    → HoldsHead pushed head tail (phase head) c
    → HoldsHead (pushed ++ (item ∷ [])) head (tail + 1) (marked phase tail claimed head) c
claim-HoldsHead pushed head tail item phase resting e h = tt
claim-HoldsHead pushed head tail item phase (holding got) e h = (
  h.0 ∙ sym (get_or-append_lt pushed (item ∷ []) head (omega (arith, h.1))),
  omega (arith, h.1),
  ground (arith, h.1, h.2),
)
claim-HoldsHead pushed head tail item phase leaving e h = tt

pub claim-IsOrdered :
    (w : World) (pos item : ℕ)
    → IsOrdered w
    → w.seen pos ≡ true
    → pos + w.queue.cap + 1 < 2 ^ 63
    → IsOrdered (claim_step pos item w)
unfolding claim_step claim
claim-IsOrdered w pos item v saw small = elim (Bool-cases (w.queue.tail == pos)) [
  | inr lost ↦ rw lost v
  | inl won ↦
      let e : w.queue.tail ≡ pos = ground arith in
      let up : u64 (pos + 1) ≡ pos + 1 = omega arith in
      rw (won, up)
        (record {
          masked = v.masked;
          front_le = omega (arith, v.front_le);
          room = omega (arith, v.seen_free pos saw (omega arith));
          small = omega arith;
          numbered = omega (arith, length-append w.pushed (item ∷ []), v.numbered);
          in_order =
              v.in_order
              ∙ sym (
                  take-append_le (front w) w.pushed (item ∷ [])
                    (omega (arith, v.front_le, v.numbered)));
          free_seq = λ k le lt. v.free_seq k (omega arith) lt;
          used_seq = λ k le lt. elim (Bool-cases (k == pos)) [
            | inl same ↦ ground (arith, v.free_seq k, v.seen_free pos saw)
            | inr other ↦ ground (arith, v.used_seq k)
          ];
          used_item = λ k le lt has. elim (Bool-cases (k == pos)) [
            | inl same ↦ ground arith
            | inr other ↦
                ground (arith, v.used_item k, v.numbered, get_or-append_lt w.pushed (item ∷ []) k)
          ];
          later = λ k le. ground (arith, v.later k);
          earlier = λ k lt. ground (arith, v.earlier k, v.front_le);
          seen_free = λ k saw' le. v.seen_free k saw' (omega arith);
          hand = rw (← e) (
              claim-HoldsHead w.pushed w.queue.head w.queue.tail item w.phase w.consumer v.numbered
                v.hand);
        })
]

-- The phase at the head does not matter to a consumer that holds nothing, and a published phase is
-- nobody's to change.
marked-HoldsHead :
    (pushed : List ℕ) (head tail pos : ℕ) (new : Phase) (phase : ℕ → Phase) (c : Consumer)
    → phase pos ≢ published
    → HoldsHead pushed head tail (phase head) c
    → HoldsHead pushed head tail (marked phase pos new head) c
marked-HoldsHead pushed head tail pos new phase resting ne h = tt
marked-HoldsHead pushed head tail pos new phase (holding got) ne h =
    elim (Bool-cases (head == pos)) [
      | inl same ↦ let e : head ≡ pos = ground arith in absurd (ne (ap phase (sym e) ∙ h.2))
      | inr other ↦ rw other h
    ]
marked-HoldsHead pushed head tail pos new phase leaving ne h = tt

pub write-IsOrdered :
    (w : World) (pos : ℕ) → IsOrdered w → w.phase pos ≡ claimed → IsOrdered (write_step pos w)
unfolding write_step write
write-IsOrdered w pos v mine =
    let (low, high) = in_use w pos v (inl mine) in
    record {
      masked = v.masked;
      front_le = v.front_le;
      room = v.room;
      small = v.small;
      numbered = v.numbered;
      in_order = v.in_order;
      free_seq = v.free_seq;
      used_seq = λ k le lt. elim (Bool-cases (k == pos)) [
        | inl same ↦ ground (arith, v.used_seq k, v.used_seq pos)
        | inr other ↦ rw other (v.used_seq k le lt)
      ];
      used_item = λ k le lt has. elim (Bool-cases (k == pos)) [
        | inl same ↦ ground arith
        | inr other ↦ ground (arith, v.used_item k, v.room, slots_ne w k pos v)
      ];
      later = λ k le. ground (arith, v.later k);
      earlier = λ k lt. ground (arith, v.earlier k);
      seen_free = v.seen_free;
      hand =
          marked-HoldsHead w.pushed w.queue.head w.queue.tail pos written w.phase w.consumer
            (λ e. cc) v.hand;
    }

pub publish-IsOrdered :
    (w : World) (pos : ℕ) → IsOrdered w → w.phase pos ≡ written → IsOrdered (publish_step pos w)
unfolding publish_step publish
publish-IsOrdered w pos v mine =
    let (low, high) = in_use w pos v (inr mine) in
    record {
      masked = v.masked;
      front_le = v.front_le;
      room = v.room;
      small = v.small;
      numbered = v.numbered;
      in_order = v.in_order;
      free_seq = λ k le lt. ground (arith, v.free_seq k, v.room, slots_ne w k pos v);
      used_seq = λ k le lt. elim (Bool-cases (k == pos)) [
        | inl same ↦ ground (arith, v.small)
        | inr other ↦ ground (arith, v.used_seq k, v.room, slots_ne w k pos v)
      ];
      used_item = λ k le lt has. elim (Bool-cases (k == pos)) [
        | inl same ↦ ground (arith, v.used_item pos)
        | inr other ↦ ground (arith, v.used_item k)
      ];
      later = λ k le. ground (arith, v.later k);
      earlier = λ k lt. ground (arith, v.earlier k);
      seen_free = v.seen_free;
      hand =
          marked-HoldsHead w.pushed w.queue.head w.queue.tail pos published w.phase w.consumer
            (λ e. cc) v.hand;
    }
