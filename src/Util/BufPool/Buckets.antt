-- ===== src/Util/BufPool/Buckets.antt =====
-- src/util/buf.c: how a size chooses its bucket.
use zero_tool_kit.Prelude.{
  ℕ, ◌-◌, ◌≤◌, ◌<◌, ◌≡◌, ◌⊎◌, zero, suc, refl, sym, ap, ◌∙◌, none, some, get_or, arith,
}
use zero_tool_kit.Util.BufPool.{
  bucket_index_for_size, bucket_index_exact_cap, k_bucket_caps, bucket_count,
}

-- The bucket for a size is the smallest that is large enough: its index is in range, its capacity
-- is the table's, the size fits, and the bucket before it, if there is one, is too small. There is
-- none just for the sizes above 2097152.
pub bucket_index_for_size_smallest :
    (size : ℕ)
    → ((i : ℕ) × (cap : ℕ) × (bucket_index_for_size size ≡ some (i, cap))
        × (i < bucket_count)
        × (cap ≡ get_or k_bucket_caps i 0)
        × (size ≤ cap)
        × ((i ≡ 0) ⊎ (get_or k_bucket_caps (i - 1) 0 < size)))
      ⊎ ((bucket_index_for_size size ≡ none) × (2097152 < size))
unfolding bucket_index_for_size
bucket_index_for_size_smallest size = ground arith

-- Nine different capacities: each is found at its own index.
exact_cap_table :
    (bi : ℕ) → bi < bucket_count → bucket_index_exact_cap (get_or k_bucket_caps bi 0) ≡ some bi
unfolding bucket_index_exact_cap
exact_cap_table zero range = refl
exact_cap_table (suc zero) range = refl
exact_cap_table (suc (suc zero)) range = refl
exact_cap_table (suc (suc (suc zero))) range = refl
exact_cap_table (suc (suc (suc (suc zero)))) range = refl
exact_cap_table (suc (suc (suc (suc (suc zero))))) range = refl
exact_cap_table (suc (suc (suc (suc (suc (suc zero)))))) range = refl
exact_cap_table (suc (suc (suc (suc (suc (suc (suc zero))))))) range = refl
exact_cap_table (suc (suc (suc (suc (suc (suc (suc (suc zero)))))))) range = refl
exact_cap_table (suc (suc (suc (suc (suc (suc (suc (suc (suc bi))))))))) range =
    absurd (omega arith)

pub exact_cap-of_table :
    (bi cap : ℕ)
    → bi < bucket_count
    → get_or k_bucket_caps bi 0 ≡ cap
    → bucket_index_exact_cap cap ≡ some bi
exact_cap-of_table bi cap range e = ap bucket_index_exact_cap (sym e) ∙ exact_cap_table bi range

pub table-of_exact_cap :
    (bi cap : ℕ) → bucket_index_exact_cap cap ≡ some bi → get_or k_bucket_caps bi 0 ≡ cap
unfolding bucket_index_exact_cap
table-of_exact_cap bi cap h = ground arith

-- A capacity that `acquire` reports for a bucket leads `release` to the same bucket.
pub exact_cap-of_size :
    (size i cap : ℕ)
    → bucket_index_for_size size ≡ some (i, cap)
    → (bucket_index_exact_cap cap ≡ some i) × (i < bucket_count) × (size ≤ cap)
unfolding bucket_index_for_size bucket_index_exact_cap
exact_cap-of_size size i cap h = ground arith

pub exact_cap_range : (cap i : ℕ) → bucket_index_exact_cap cap ≡ some i → i < bucket_count
unfolding bucket_index_exact_cap
exact_cap_range cap i h = ground arith
