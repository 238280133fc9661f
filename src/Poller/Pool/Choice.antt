-- ===== src/Poller/Pool/Choice.antt =====
-- src/poller/poller_pool.c: which poller `ztk_poller_pool_get` chooses.
use zero_tool_kit.Prelude.{
  ℕ, zero, suc, ◌+◌, ◌%◌, ◌^◌, ◌≤◌, ◌<◌, ◌≡◌, refl, Bool, false, get_elem?, leb, ltb, ◌==◌, inl,
  inr, Bool-cases, if◌then◌else◌, u32, arith,
}
use zero_tool_kit.Poller.Pool.{Pool, Best, look, scan, start_at, choose, get, size}

module _ (load : ℕ → ℕ → ℕ) (count : ℕ) (pos : 0 < count) (small : count < 2 ^ 31) where
  -- The slot is in range, is where the scan stands, has its load from a reading of it, and that is
  -- not above the first one.
  record Sound (first : ℕ) (b : Best) : Type 0 where
    in_range : b.index < count
    here : b.pos ≡ b.index
    was_read : (k : ℕ) × (b.min_load ≡ load k b.index)
    no_worse : b.min_load ≤ first

  look-Sound : (first i : ℕ) (b : Best) → Sound first b → Sound first (look load count i b)
  look-Sound first i b s =
      let slot = u32 (b.pos + i) % count in
      elim (Bool-cases (ltb (load (i + 1) slot) b.min_load)) [
        | inl less ↦ rw less (record {
          in_range = omega arith;
          here = refl;
          was_read = (i + 1, refl);
          no_worse = ground (arith, s.no_worse);
        })
        | inr other ↦ rw other s
      ]

  scan-Sound :
      (first rounds i : ℕ) (b : Best) → Sound first b → Sound first (scan load count rounds i b)
  unfolding scan
  scan-Sound first zero i b s = s
  scan-Sound first (suc rounds) i b s = elim (Bool-cases ((look load count i b).min_load == 0)) [
    | inl free ↦ rw free (look-Sound first i b s)
    | inr other ↦
        rw other (scan-Sound first rounds (i + 1) (look load count i b) (look-Sound first i b s))
  ]

-- For a pool of 1 to 2 ^ 31 - 1 pollers, whatever the loads are at each reading, and with no wish for
-- the calling thread's own poller: the result is the poller in a slot of the pool, whose load, as it was read, is not above the first reading, that of
-- the slot whose turn it is; and the next turn is that of the slot behind the chosen one.
pub get_sound :
    (load : ℕ → ℕ → ℕ) (is_current : ℕ → Bool) (pool : Pool)
    → 0 < size pool
    → size pool < 2 ^ 31
    → let b = choose load (size pool) pool.thread_pos in
      (get load is_current pool false
        ≡ (get_elem? pool.pollers b.index, record pool { thread_pos = (b.index + 1) % size pool }))
      × (b.index < size pool)
      × ((k : ℕ) × (b.min_load ≡ load k b.index))
      × (b.min_load ≤ load 0 (if leb (size pool) pool.thread_pos then 0 else pool.thread_pos))
unfolding get choose
get_sound load is_current pool pos small =
    (ground (arith, sound.here, sound.in_range), sound.in_range, sound.was_read, sound.no_worse)
  where
    turn : ℕ
    turn = if leb (size pool) pool.thread_pos then 0 else pool.thread_pos

    started : Sound load (size pool) pos small (load 0 turn) (start_at load (size pool) turn)
    started = record {
      in_range = ground arith;
      here = refl;
      was_read = (0, refl);
      no_worse = omega arith;
    }

    sound :
        Sound load
          (size pool)
          pos
          small
          (load 0 turn)
          (scan load (size pool) (size pool) 0 (start_at load (size pool) turn))
    sound = scan-Sound load (size pool) pos small (load 0 turn) (size pool) 0 _ started

-- If the loads do not change during the scan and no other poller is less loaded than the one whose
-- turn it is, that one is chosen.
scan_stays :
    (l : ℕ → ℕ) (count turn : ℕ)
    → ((i : ℕ) → l turn ≤ l i)
    → (rounds i : ℕ)
    → scan (λ k j. l j) count rounds i (record { index = turn; min_load = l turn; pos = turn })
      ≡ record { index = turn; min_load = l turn; pos = turn }
unfolding scan
scan_stays l count turn least zero i = refl
scan_stays l count turn least (suc rounds) i =
    ground (arith, least (u32 (turn + i) % count), scan_stays l count turn least rounds (i + 1))

-- So while no poller is less loaded than the one whose turn it is, the pool goes round robin: that
-- poller is chosen and the turn passes to the next slot.
pub choose_round_robin :
    (l : ℕ → ℕ) (count turn : ℕ)
    → turn < count
    → ((i : ℕ) → l turn ≤ l i)
    → (choose (λ k j. l j) count turn).index ≡ turn
unfolding choose
choose_round_robin l count turn inside least = ground (arith, scan_stays l count turn least count 0)

-- The scan moves its own starting point, so it can pass over a slot: among three pollers, with the
-- first slot's turn and the second less loaded than the first, the second is chosen whatever the
-- third's load is, also if it is the least: two tables of loads that agree on the first two slots
-- give the same choice.
pub choose_may_skip :
    (l m : ℕ → ℕ)
    → l 1 < l 0
    → m 0 ≡ l 0
    → m 1 ≡ l 1
    → (choose (λ k j. l j) 3 0 ≡ record { index = 1; min_load = l 1; pos = 1 })
      × (choose (λ k j. m j) 3 0 ≡ choose (λ k j. l j) 3 0)
unfolding choose scan
choose_may_skip l m better first second = ground arith
