-- ===== src/Util/ByteBuf/Tests.antt =====
-- The theorems on the byte buffer of src/util/byte_buf.c at concrete inputs.
use zero_tool_kit.Prelude.{◌≡◌, inr, refl, true, some, [], ◌∷◌, arith}
use zero_tool_kit.Errno.{ok}
use zero_tool_kit.Util.ByteBuf.{ByteBuf, append}
use zero_tool_kit.Util.ByteBuf.Content.{IsValid, Appended, append-Appended}

-- No content yet, in a memory that is all 0.
abbrev empty : ByteBuf
empty = record { memory = λ i. 0; size = 0; capacity = 0 }

empty-IsValid : IsValid empty
empty-IsValid = record { room = inr refl; ended = λ pos. refl; small = ground arith }

append-Appended_example :
    (c : ByteBuf) × (append (λ n. true) empty (65 ∷ 66 ∷ []) ≡ some (ok, c))
    × Appended empty (65 ∷ 66 ∷ []) c
append-Appended_example =
    append-Appended (λ n. true) empty (65 ∷ 66 ∷ []) (λ n. refl) empty-IsValid (ground arith)
      (ground arith)
