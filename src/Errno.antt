-- ===== src/Errno.antt =====
-- include/ztk/ztk_errno.h and src/core/ztk_errno.c: the status codes of the whole library.
use zero_tool_kit.Prelude.{ℕ}

-- `ztk_err_t`, with the enumerators in the order of the header (0, -1, …, -9).
pub data Err : Type 0 where
  ok nomem invalid io timeout again not_impl platform state buffer_too_small : Err

-- `idx = -err`
pub index : Err → ℕ
index ok = 0
index nomem = 1
index invalid = 2
index io = 3
index timeout = 4
index again = 5
index not_impl = 6
index platform = 7
index state = 8
index buffer_too_small = 9
