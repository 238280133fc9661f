-- ===== src/Util/Buf/Tests.antt =====
-- The theorems on the buffers of src/util/buf.c at concrete inputs.
use zero_tool_kit.Prelude.{◌≡◌, refl, [], arith}
use zero_tool_kit.Util.Buf.Sharing.{
  Shared, fresh, here, load_step, cas_step, unref_step, gone_revived,
}

-- A `try_ref` loads 1, the owner drops the last reference, the freelist's link takes the place of the
-- count, and the exchange fails.
abbrev raced : Shared
raced = record { refcnt = 8192; owned = 0; loaded = []; given_back = 1 }

gone_revived_example :
    let t = cas_step 8192 (load_step (unref_step 8192 fresh)) in
    (t.owned ≡ 1) × (t.given_back ≡ 1) × (t.refcnt ≡ 8193)
gone_revived_example = gone_revived 8192 here refl (omega arith) (omega arith)
