-- ===== src/Base/Texts.antt =====
-- Texts as lists of code points, and Rust's `trim`.
use Prim.Native.Nat.{ℕ, zero, suc, ◌+◌}
use mathlib.Core.Path.{◌≡◌, refl, ap}
use mathlib.Core.Bool.{Bool, true, false, ◌&&◌, ◌||◌}
use mathlib.Core.List.{List, [], ◌∷◌, ◌++◌, reverse}
use native.Mathlib.Omega.{arith}
use tinycortex.Base.Tests.{if◌then◌else◌, ◌==◌, leb, ltb}

abbrev pub Text : Type 0
Text = List ℕ

abbrev pub is_nil {ℓ} : {A : Type ℓ} → List A → Bool
is_nil [] = true
is_nil (x ∷ xs) = false

abbrev pub take {ℓ} : {A : Type ℓ} → ℕ → List A → List A
take zero xs = []
take (suc n) [] = []
take (suc n) (x ∷ xs) = x ∷ take n xs

abbrev pub drop {ℓ} : {A : Type ℓ} → ℕ → List A → List A
drop zero xs = xs
drop (suc n) [] = []
drop (suc n) (x ∷ xs) = drop n xs

pub take-drop {ℓ} : {A : Type ℓ} (n : ℕ) (xs : List A) → take n xs ++ drop n xs ≡ xs
take-drop zero xs = refl
take-drop (suc n) [] = refl
take-drop (suc n) (x ∷ xs) = ap (λ z. x ∷ z) (take-drop n xs)

-- `str::len`: how many bytes the code points take in UTF-8.
abbrev pub utf8_len : Text → ℕ
utf8_len [] = 0
utf8_len (c ∷ cs) =
    (if ltb c 128 then 1 else if ltb c 2048 then 2 else if ltb c 65536 then 3 else 4) + utf8_len cs

-- Equality of texts, a test that stays shut.
unfoldable pub same_text : Text → Text → Bool
same_text [] [] = true
same_text (x ∷ xs) (y ∷ ys) = x == y && same_text xs ys
same_text _ _ = false

pub same_text_refl : (s : Text) → same_text s s ≡ true
unfolding same_text
same_text_refl [] = refl
same_text_refl (x ∷ xs) = go (x == x) (ground arith) (same_text_refl xs)
  where
    go : (b : Bool) → b ≡ true → same_text xs xs ≡ true → b && same_text xs xs ≡ true
    go true e h = h
    go false e h = e

pub same_text_eq : (s t : Text) → same_text s t ≡ true → s ≡ t
unfolding same_text
same_text_eq [] [] h = refl
same_text_eq [] (y ∷ ys) h = ground (arith, h)
same_text_eq (x ∷ xs) [] h = ground (arith, h)
same_text_eq (x ∷ xs) (y ∷ ys) h = go (same_text_eq xs ys) (x == y) refl h
  where
    heads : x == y ≡ true → x ≡ y
    heads e = ground (arith, e)

    go :
        (same_text xs ys ≡ true → xs ≡ ys)
        → (b : Bool) → x == y ≡ b
        → b && same_text xs ys ≡ true
        → (x ∷ xs) ≡ (y ∷ ys)
    go ih true e k = rw (heads e, ih k) refl
    go ih false e k = ground (arith, k)

-- The characters of the Unicode property `White_Space`.
unfoldable pub is_whitespace : ℕ → Bool
is_whitespace c =
    (leb 9 c && leb c 13)
    || ((leb 8192 c && leb c 8202)
        || (c == 32
            || (c == 133
                || (c == 160
                    || (c == 5760
                        || (c == 8232
                            || (c == 8233 || (c == 8239 || (c == 8287 || c == 12288)))))))))

unfoldable pub trim_start : Text → Text
unfolding is_whitespace
trim_start [] = []
trim_start (c ∷ cs) = let rest = trim_start cs in if is_whitespace c then rest else c ∷ cs

unfoldable pub trim : Text → Text
unfolding trim_start
trim t = reverse (trim_start (reverse (trim_start t)))
