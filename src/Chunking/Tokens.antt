-- ===== src/Chunking/Tokens.antt =====
-- The token estimate (tokens.py): one for a CJK character, a quarter for any other, rounded up.
pub mod Bounds
use atlas_knowledge.Common.{
  ℕ, ◌+◌, ◌-◌, ◌/◌, Bool, ◌&&◌, ◌||◌, [], ◌∷◌, leb, if◌then◌else◌, length, Text,
}

-- The character class `_CJK`.
unfoldable pub is_cjk : ℕ → Bool
is_cjk c =
    (leb 0x3000 c && leb c 0x303f)
    || ((leb 0x3040 c && leb c 0x30ff)
        || ((leb 0x3400 c && leb c 0x4dbf)
            || ((leb 0x4e00 c && leb c 0x9fff)
                || ((leb 0xac00 c && leb c 0xd7af)
                    || ((leb 0xf900 c && leb c 0xfaff) || (leb 0xff00 c && leb c 0xffef))))))

unfoldable pub count_cjk : Text → ℕ
unfolding is_cjk
count_cjk [] = 0
count_cjk (c ∷ s) = (if is_cjk c then 1 else 0) + count_cjk s

-- `math.ceil(n / 4)` is `(n + 3) / 4` on the natural numbers.
unfoldable pub estimate_tokens : Text → ℕ
unfolding count_cjk
estimate_tokens text = count_cjk text + (length text - count_cjk text + 3) / 4
