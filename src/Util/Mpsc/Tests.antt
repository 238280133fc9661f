-- ===== src/Util/Mpsc/Tests.antt =====
-- src/util/mpsc.c: an interleaving of two producers and the consumer on a queue of two cells.
use zero_tool_kit.Prelude.{
  ℕ, ◌≤◌, ◌≡◌, ◌↔◌, refl, true, some, List, ◌++◌, length, ◌+◌, ◌==◌, if◌then◌else◌, arith,
}
use zero_tool_kit.Util.Mpsc.{
  Queue, create, judge, full, free, is_ready, slot, claim, publish, write, peek,
}
use zero_tool_kit.Util.Mpsc.Steps.{
  World, published, resting, Reach, here, next, opened, do_see, do_claim, do_write, do_publish,
  do_read, do_release, see_step, claim_step, write_step, publish_step, read_step, release_step,
}
use zero_tool_kit.Util.Mpsc.Invariant.{front}
use zero_tool_kit.Util.Mpsc.Order.{popped_in_order, refused_only_full}

abbrev two_cells : Queue
two_cells = record { items = λ s. 0; seq = λ s. s; cap = 2; mask = 1; head = 0; tail = 0 }

-- Both producers judge their positions free, the second publishes first, then the consumer pops the
-- first item.
abbrev both_claimed : World
both_claimed = claim_step 1 8 (see_step 1 (claim_step 0 7 (see_step 0 (opened two_cells))))

abbrev both_published : World
both_published = publish_step 0 (write_step 0 (publish_step 1 (write_step 1 both_claimed)))

abbrev first_out : World
first_out = release_step 7 (read_step both_published)

first_out-Reach : Reach (opened two_cells) first_out
unfolding see_step claim_step write_step publish_step read_step release_step judge slot claim
    is_ready publish write peek
first_out-Reach =
    next
      (next
        (next
          (next
            (next
              (next
                (next
                  (next
                    (next (next here (do_see 0 (omega arith) refl refl))
                      (do_claim 0 7 refl (omega arith) refl))
                    (do_see 1 (omega arith) refl refl))
                  (do_claim 1 8 refl (omega arith) refl))
                (do_write 1 refl refl))
              (do_publish 1 refl refl))
            (do_write 0 refl refl))
          (do_publish 0 refl refl))
        (do_read refl refl refl))
      (do_release 7 refl refl)

two_cells_made : create true true 2 ≡ some two_cells
unfolding create
two_cells_made = refl

popped_in_order_example :
    (rest : List ℕ) × (first_out.pushed ≡ first_out.popped ++ rest) × (length rest ≤ 2)
popped_in_order_example =
    popped_in_order true true 2 {q = two_cells} {t = first_out} (omega arith) two_cells_made
      first_out-Reach

refused_only_full_example :
    (judge first_out.queue first_out.queue.tail
      ≡ (if first_out.queue.tail == front first_out + 2 then full else free))
    × (first_out.consumer ≡ resting
        → (is_ready first_out.queue ≡ true) ↔ (first_out.phase first_out.queue.head ≡ published))
refused_only_full_example =
    refused_only_full true true 2 {q = two_cells} {t = first_out} (omega arith) two_cells_made
      first_out-Reach
