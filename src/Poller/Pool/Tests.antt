-- ===== src/Poller/Pool/Tests.antt =====
-- The theorems on the choice of src/poller/poller_pool.c at concrete inputs.
use zero_tool_kit.Prelude.{
  ℕ, ◌+◌, ◌%◌, ◌<◌, ◌≤◌, get_elem?, ◌≡◌, refl, false, [], ◌∷◌, ◌==◌, if◌then◌else◌, arith,
}
use zero_tool_kit.Poller.Pool.{Pool, choose, get}
use zero_tool_kit.Poller.Pool.Choice.{get_sound, choose_may_skip}

abbrev three : Pool
three = record { pollers = 11 ∷ 22 ∷ 33 ∷ []; thread_pos = 1; prefer_current = false }

-- Loads of 90, 50 and 10, and of 90, 50 and 70.
abbrev loads : ℕ → ℕ → ℕ
loads third i = if i == 0 then 90 else if i == 1 then 50 else third

choose_may_skip_example :
    (choose (λ k j. loads 10 j) 3 0 ≡ record { index = 1; min_load = 50; pos = 1 })
    × (choose (λ k j. loads 70 j) 3 0 ≡ choose (λ k j. loads 10 j) 3 0)
choose_may_skip_example = choose_may_skip (loads 10) (loads 70) (ground arith) refl refl

get_sound_example :
    let b = choose (λ k j. loads 10 j) 3 1 in
    (get (λ k j. loads 10 j) (λ c. false) three false
      ≡ (get_elem? three.pollers b.index, record three { thread_pos = (b.index + 1) % 3 }))
    × (b.index < 3)
    × ((k : ℕ) × (b.min_load ≡ loads 10 b.index))
    × (b.min_load ≤ 50)
get_sound_example = get_sound (λ k j. loads 10 j) (λ c. false) three (omega arith) (omega arith)
