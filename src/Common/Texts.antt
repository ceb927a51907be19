-- ===== src/Common/Texts.antt =====
-- Python's `str` as the list of its code points, with the methods that the program uses.
use Prim.Native.Char.{code}
use Prim.Native.String.{String}
use Prim.Native.Nat.{ℕ, ◌+◌}
use mathlib.Core.Path.{◌≡◌, refl}
use mathlib.Core.Logic.{◌↔◌}
use mathlib.Core.Bool.{Bool, true, false, ◌&&◌, ◌||◌}
use mathlib.Core.List.{List, [], ◌∷◌, ◌++◌, reverse, append_assoc}
use native.Mathlib.Omega.{arith}
use atlas_knowledge.Common.Tests.{leb, ◌==◌, ==_refl, if◌then◌else◌}
use atlas_knowledge.Common.Lists.{length, length-append}

abbrev pub Text : Type 0
Text = List ℕ

abbrev pub codes : String → Text
codes String.[] = []
codes (String.◌∷◌ c s) = code c ∷ codes s

unfoldable pub text_eq : Text → Text → Bool
text_eq [] [] = true
text_eq [] (d ∷ t) = false
text_eq (c ∷ s) [] = false
text_eq (c ∷ s) (d ∷ t) = c == d && text_eq s t

text_eq_sound : (s t : Text) → text_eq s t ≡ true → s ≡ t
unfolding text_eq
text_eq_sound [] [] h = refl
text_eq_sound [] (d ∷ t) h = cc
text_eq_sound (c ∷ s) [] h = cc
text_eq_sound (c ∷ s) (d ∷ t) h = ground (arith, text_eq_sound s t)

pub text_eq_refl : (s : Text) → text_eq s s ≡ true
unfolding text_eq
text_eq_refl [] = refl
text_eq_refl (c ∷ s) = rw (==_refl c, text_eq_refl s)

text_eq_complete : (s t : Text) → s ≡ t → text_eq s t ≡ true
text_eq_complete s t e = rw e (text_eq_refl t)

pub text_eq_iff : (s t : Text) → (text_eq s t ≡ true) ↔ (s ≡ t)
text_eq_iff s t = (text_eq_sound s t, text_eq_complete s t)

-- `str.isspace` of one character, and `\s` of `re`
unfoldable pub is_space : ℕ → Bool
is_space c =
    (leb 0x9 c && leb c 0xd)
    || ((leb 0x1c c && leb c 0x20)
        || (c == 0x85
            || (c == 0xa0
                || (c == 0x1680
                    || ((leb 0x2000 c && leb c 0x200a)
                        || (c == 0x2028
                            || (c == 0x2029 || (c == 0x202f || (c == 0x205f || c == 0x3000)))))))))

-- `s.lstrip()` and `s.strip()`, with the characters to strip given by a test
unfoldable pub strip_left : (ℕ → Bool) → Text → Text
strip_left p [] = []
strip_left p (c ∷ s) = let rest = strip_left p s in if p c then rest else c ∷ s

unfoldable pub strip_by : (ℕ → Bool) → Text → Text
unfolding strip_left
strip_by p s = reverse (strip_left p (reverse (strip_left p s)))

unfoldable pub strip : Text → Text
unfolding strip_by is_space
strip s = strip_by is_space s

-- `sep.join(parts)`
unfoldable pub join : Text → List Text → Text
join sep [] = []
join sep (p ∷ []) = p
join sep (p ∷ q ∷ rest) = p ++ (sep ++ join sep (q ∷ rest))

-- `"".join(parts)`
abbrev pub concat : List Text → Text
concat [] = []
concat (p ∷ ps) = p ++ concat ps

-- `s.startswith(prefix)`
unfoldable pub starts_with : Text → Text → Bool
starts_with s [] = true
starts_with [] (p ∷ ps) = false
starts_with (c ∷ s) (p ∷ ps) = c == p && starts_with s ps

-- `s.replace(a, b)` for one character `a`
unfoldable pub replace_char : ℕ → Text → Text → Text
replace_char a b [] = []
replace_char a b (c ∷ s) = let rest = replace_char a b s in if c == a then b ++ rest else c ∷ rest

-- The total length of the texts.
abbrev pub total_length : List Text → ℕ
total_length [] = 0
total_length (p ∷ ps) = length p + total_length ps

pub concat-append : (ps qs : List Text) → concat (ps ++ qs) ≡ concat ps ++ concat qs
concat-append [] qs = refl
concat-append (p ∷ ps) qs = simp (concat-append ps qs, append_assoc)

pub length-concat : (ps : List Text) → length (concat ps) ≡ total_length ps
length-concat [] = refl
length-concat (p ∷ ps) = omega (arith, length-append p (concat ps), length-concat ps)

-- One text stands inside another.
abbrev pub Contains : Text → Text → Type 0
Contains text part = (before after : Text) × (text ≡ before ++ (part ++ after))
