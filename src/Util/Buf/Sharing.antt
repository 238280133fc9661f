-- ===== src/Util/Buf/Sharing.antt =====
-- src/util/buf.c: the reference count of one buffer under any interleaving of its users. Each
-- step is one atomic operation of `ztk_buf_ref`, `ztk_buf_try_ref` or `ztk_buf_unref`; between the
-- load and the compare-exchange of a `try_ref` any other steps may come. The steps keep below 2 ^ 31
-- references, which is the range of the `int`; the count is here its 32 bits. A buffer that is given
-- back is overwritten: by the link of the pool's freelist, by a new buffer in the same block, or
-- otherwise after free().
use zero_tool_kit.Prelude.{
  ℕ, ◌+◌, ◌-◌, ◌^◌, ◌<◌, ◌≡◌, ◌≢◌, ◌⊎◌, ◌||◌, leb, u32, List, [], ◌∷◌, count, erase, ◌==◌,
  if◌then◌else◌, arith,
}

-- The count in memory, the references that users own, the values that running `try_ref` calls
-- have loaded, and how often the memory was given back.
pub record Shared : Type 0 where
  pub refcnt : ℕ
  pub owned : ℕ
  pub loaded : List ℕ
  pub given_back : ℕ

-- A new buffer, which its creator owns.
abbrev pub fresh : Shared
fresh = record { refcnt = 1; owned = 1; loaded = []; given_back = 0 }

pub ref_step : Shared → Shared
ref_step s = record s { refcnt = u32 (s.refcnt + 1); owned = s.owned + 1 }

-- The load: a count that is not positive ends the call with NULL.
unfoldable pub load_step : Shared → Shared
load_step s =
    if s.refcnt == 0 || leb (2 ^ 31) s.refcnt then s else record s { loaded = s.refcnt ∷ s.loaded }

-- The compare-exchange with the loaded value `c`: it takes a reference or goes back to the load.
unfoldable pub cas_step : ℕ → Shared → Shared
cas_step c s =
    if s.refcnt == c
    then record s { refcnt = u32 (c + 1); owned = s.owned + 1; loaded = erase c s.loaded }
    else record s { loaded = erase c s.loaded }

-- The subtraction, and the release by the call that saw 1. The release hands the memory to the pool
-- or to free(): `word` is what stands in the place of the count then.
unfoldable pub unref_step : ℕ → Shared → Shared
unref_step word s = record s {
  refcnt = if s.refcnt == 1 then word else u32 (s.refcnt + 2 ^ 32 - 1);
  owned = s.owned - 1;
  given_back = if s.refcnt == 1 then s.given_back + 1 else s.given_back;
}

-- `ref` and `unref` are calls of a user that owns a reference; `try_ref` needs none, and may load from
-- memory that was given back, which others may write. In these runs no compare-exchange finds the
-- value that it loaded in such memory.
pub data Step (s : Shared) (t : Shared) : Type 0 where
  do_ref : 0 < s.owned → s.owned + 1 < 2 ^ 31 → t ≡ ref_step s → Step s t
  do_load : t ≡ load_step s → Step s t
  do_cas :
      (c : ℕ)
      → (s.given_back ≡ 0) ⊎ (s.refcnt ≢ c)
      → 0 < count c s.loaded
      → s.owned + 1 < 2 ^ 31
      → t ≡ cas_step c s
      → Step s t
  do_unref : (word : ℕ) → 0 < s.owned → t ≡ unref_step word s → Step s t
  do_overwrite : (word : ℕ) → 0 < s.given_back → t ≡ record s { refcnt = word } → Step s t

pub data Reach (s : Shared) : Shared → Type 0 where
  here : Reach s s
  next : {t u : Shared} → Reach s t → Step t u → Reach s u

pub record IsCounted (s : Shared) : Type 0 where
  pub exact : (if s.given_back == 0 then s.refcnt else 0) ≡ s.owned
  pub small : s.owned < 2 ^ 31
  pub returned : s.given_back ≡ (if s.owned == 0 then 1 else 0)

Step-IsCounted : (s t : Shared) → Step s t → IsCounted s → IsCounted t
unfolding ref_step load_step cas_step unref_step
Step-IsCounted s t (do_ref own small e) v = ground (arith, v.exact, v.small, v.returned)
Step-IsCounted s t (do_load e) v = ground (arith, v.exact, v.small, v.returned)
Step-IsCounted s t (do_cas c safe mine small e) v =
    ground (arith, v.exact, v.small, v.returned, safe)
Step-IsCounted s t (do_unref word own e) v = ground (arith, v.exact, v.small, v.returned)
Step-IsCounted s t (do_overwrite word gone e) v = ground (arith, v.exact, v.small, v.returned)

Reach-IsCounted : {s t : Shared} → IsCounted s → Reach s t → IsCounted t
Reach-IsCounted v here = v
Reach-IsCounted v (next {t} {u} r st) = Step-IsCounted t u st (Reach-IsCounted v r)

fresh-IsCounted : IsCounted fresh
fresh-IsCounted = ground arith

-- A `try_ref` can get a buffer that is gone: after any run, if the last reference is
-- dropped and the word that overwrites the count is positive and below 2 ^ 31 - 1, the next load and
-- compare-exchange take a reference to the memory that was given back, and add one to that word.
pub gone_revived :
    {s : Shared} (word : ℕ)
    → Reach fresh s
    → s.owned ≡ 1
    → 0 < word
    → word + 1 < 2 ^ 31
    → let t = cas_step word (load_step (unref_step word s)) in
      (t.owned ≡ 1) × (t.given_back ≡ 1) × (t.refcnt ≡ word + 1)
unfolding load_step cas_step unref_step
gone_revived word r last pos small = ground (arith, Reach-IsCounted fresh-IsCounted r)
