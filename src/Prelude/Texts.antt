-- ===== src/Prelude/Texts.antt =====
-- Go strings: sequences of bytes. `text` writes an ASCII literal as its bytes.
use Prim.Native.Char.{code}
use Prim.Native.Nat.{ℕ, zero, suc, ◌-◌}
use Prim.Native.String.{String}
use mathlib.Core.Path.{◌≡◌, refl}
use mathlib.Core.Logic.{◌↔◌}
use mathlib.Core.Bool.{Bool, true, false, ◌&&◌, ◌||◌}
use mathlib.Core.List.{List, [], ◌∷◌, reverse}
use native.Mathlib.Omega.{arith}
use codex_oauth_proxy.Prelude.Tests.{ltb, leb, ◌==◌, if◌then◌else◌}

abbrev pub Text : Type 0
Text = List ℕ

abbrev pub text : String → Text
text String.[] = []
text (String.◌∷◌ c s) = code c ∷ text s

-- a == b on strings.
unfoldable pub text_eq : Text → Text → Bool
text_eq [] [] = true
text_eq (a ∷ s) (b ∷ t) = a == b && text_eq s t
text_eq _ _ = false

text_eq→eq : (s t : Text) → text_eq s t ≡ true → s ≡ t
unfolding text_eq
text_eq→eq [] [] h = refl
text_eq→eq (a ∷ s) (b ∷ t) h = ground (arith, text_eq→eq s t)
text_eq→eq [] (b ∷ t) h = ground arith
text_eq→eq (a ∷ s) [] h = ground arith

pub text_eq_refl : (s : Text) → text_eq s s ≡ true
unfolding text_eq
text_eq_refl [] = refl
text_eq_refl (a ∷ s) = ground (arith, text_eq_refl s)

pub text_eq_iff : (s t : Text) → (text_eq s t ≡ true) ↔ (s ≡ t)
text_eq_iff s t = (text_eq→eq s t, λ e. rw e (text_eq_refl t))

-- a < b on strings: bytewise, a proper prefix first.
unfoldable pub text_ltb : Text → Text → Bool
text_ltb [] [] = false
text_ltb [] (b ∷ t) = true
text_ltb (a ∷ s) [] = false
text_ltb (a ∷ s) (b ∷ t) = ltb a b || (a == b && text_ltb s t)

abbrev pub is_empty : Text → Bool
is_empty [] = true
is_empty (c ∷ s) = false

-- unicode.IsSpace on the UTF-8 bytes of one character.
is_space1 : ℕ → Bool
is_space1 a = (leb 9 a && leb a 13) || a == 32

is_space2 : ℕ → ℕ → Bool
is_space2 a b = a == 0xc2 && (b == 0x85 || b == 0xa0)

is_space3 : ℕ → ℕ → ℕ → Bool
is_space3 a b c =
    (a == 0xe1 && b == 0x9a && c == 0x80)
    || (a == 0xe2
        && b == 0x80
        && ((leb 0x80 c && leb c 0x8a) || c == 0xa8 || c == 0xa9 || c == 0xaf))
    || (a == 0xe2 && b == 0x81 && c == 0x9f)
    || (a == 0xe3 && b == 0x80 && c == 0x80)

-- The length of the white-space character that a text starts with; 0 if there is none.
space_first : Text → ℕ
space_first [] = 0
space_first (a ∷ []) = if is_space1 a then 1 else 0
space_first (a ∷ b ∷ []) = if is_space1 a then 1 else if is_space2 a b then 2 else 0
space_first (a ∷ b ∷ c ∷ _) =
    if is_space1 a then 1 else if is_space2 a b then 2 else if is_space3 a b c then 3 else 0

-- The same at the end of a text that is given backwards.
space_last : Text → ℕ
space_last [] = 0
space_last (a ∷ []) = if is_space1 a then 1 else 0
space_last (a ∷ b ∷ []) = if is_space1 a then 1 else if is_space2 b a then 2 else 0
space_last (a ∷ b ∷ c ∷ _) =
    if is_space1 a then 1 else if is_space2 b a then 2 else if is_space3 c b a then 3 else 0

-- `skip` counts the bytes left of the character that is being dropped.
drop_space : (Text → ℕ) → ℕ → Text → Text
drop_space size skip [] = []
drop_space size (suc skip) (a ∷ s) = drop_space size skip s
drop_space size zero (a ∷ s) =
    let n = size (a ∷ s) in if n == 0 then a ∷ s else drop_space size (n - 1) s

-- strings.TrimSpace.
unfoldable pub trim_space : Text → Text
unfolding is_space1 is_space2 is_space3 space_first space_last drop_space
trim_space s = reverse (drop_space space_last 0 (reverse (drop_space space_first 0 s)))

-- The texts that trimming leaves alone.
abbrev pub IsTrimmed : Text → Type 0
IsTrimmed s = trim_space s ≡ s

trim_space_example : trim_space (text " \t a b \n") ≡ text "a b"
unfolding trim_space
trim_space_example = refl
