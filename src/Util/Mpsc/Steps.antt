-- ===== src/Util/Mpsc/Steps.antt =====
-- src/util/mpsc.c: any interleaving of the accesses of many producers and one consumer, for fewer
-- than 2 ^ 63 items in all.
use zero_tool_kit.Prelude.{
  ℕ, ◌+◌, ◌^◌, ◌≤◌, ◌<◌, ◌≡◌, Bool, true, false, List, [], ◌∷◌, ◌++◌, get_or, ◌==◌, if◌then◌else◌,
}
use zero_tool_kit.Util.Mpsc.{
  Queue, free, judge, claim, write, publish, is_ready, peek, release, advance,
}

-- How far the producer that claimed a position has come.
pub data Phase : Type 0 where
  unclaimed claimed written published : Phase

-- Where the consumer stands in a pop: it has not read an item, it has read one, or it has freed the
-- cell and not yet moved the head.
pub data Consumer : Type 0 where
  resting : Consumer
  holding : ℕ → Consumer
  leaving : Consumer

-- The queue and, not in the source: which positions some producer has judged free, how far each
-- position is, the items in the order in which positions were claimed, and those that were popped.
pub record World : Type 0 where
  pub queue : Queue
  pub seen : ℕ → Bool
  pub phase : ℕ → Phase
  pub pushed : List ℕ
  pub consumer : Consumer
  pub popped : List ℕ

abbrev pub marked {ℓ} : {A : Type ℓ} → (ℕ → A) → ℕ → A → ℕ → A
marked f k v j = if j == k then v else f j

-- The steps of the producers. The position that a producer judges is a value that it loaded from
-- the tail, which only grows.
unfoldable pub see_step : ℕ → World → World
see_step pos w = record w { seen = marked w.seen pos true }

unfoldable pub claim_step : ℕ → ℕ → World → World
claim_step pos item w =
    let (won, q) = claim pos w.queue in
    if won
    then record w {
      queue = q;
      phase = marked w.phase pos claimed;
      pushed = w.pushed ++ (item ∷ []);
    }
    else w

unfoldable pub write_step : ℕ → World → World
write_step pos w = record w {
  queue = write pos (get_or w.pushed pos 0) w.queue;
  phase = marked w.phase pos written;
}

unfoldable pub publish_step : ℕ → World → World
publish_step pos w = record w { queue = publish pos w.queue; phase = marked w.phase pos published }

-- The steps of the consumer.
unfoldable pub read_step : World → World
read_step w = record w { consumer = holding (peek w.queue) }

unfoldable pub release_step : ℕ → World → World
release_step item w = record w {
  queue = release w.queue;
  consumer = leaving;
  popped = w.popped ++ (item ∷ []);
}

unfoldable pub advance_step : World → World
advance_step w = record w { queue = advance w.queue; consumer = resting }

pub data Step (w : World) (t : World) : Type 0 where
  do_see : (pos : ℕ) → pos ≤ w.queue.tail → judge w.queue pos ≡ free → t ≡ see_step pos w → Step w t
  do_claim :
      (pos item : ℕ)
      → w.seen pos ≡ true
      → pos + w.queue.cap + 1 < 2 ^ 63
      → t ≡ claim_step pos item w
      → Step w t
  do_write : (pos : ℕ) → w.phase pos ≡ claimed → t ≡ write_step pos w → Step w t
  do_publish : (pos : ℕ) → w.phase pos ≡ written → t ≡ publish_step pos w → Step w t
  do_read : w.consumer ≡ resting → is_ready w.queue ≡ true → t ≡ read_step w → Step w t
  do_release : (item : ℕ) → w.consumer ≡ holding item → t ≡ release_step item w → Step w t
  do_advance : w.consumer ≡ leaving → t ≡ advance_step w → Step w t

pub data Reach (w : World) : World → Type 0 where
  here : Reach w w
  next : {t u : World} → Reach w t → Step t u → Reach w u

abbrev pub opened : Queue → World
opened q = record {
  queue = q;
  seen = λ k. false;
  phase = λ k. unclaimed;
  pushed = [];
  consumer = resting;
  popped = [];
}
