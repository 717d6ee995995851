-- ===== src/Common/Text.antt =====
-- Texts that the program walks: the list of code points.
use Prim.Native.Char.{code}
use aep_python.Common.{
  ℕ, ◌+◌, String, ◌≡◌, refl, Bool, true, ◌&&◌, List, [], ◌∷◌, ◌++◌, map, arith, ◌==◌, nat_eq,
  string_eq, pair_eq, list_eq, leb, if◌then◌else◌, all,
}

abbrev pub Text : Type 0
Text = List ℕ

abbrev pub codes : String → Text
codes String.[] = []
codes (String.◌∷◌ c s) = code c ∷ codes s

-- `str.lower` on the ASCII letters, which leaves the other code points
abbrev pub lower_code : ℕ → ℕ
lower_code c = if leb b'A' c && leb c b'Z' then c + 32 else c

abbrev pub lower : Text → Text
lower = map lower_code

-- `s.split(chr(sep), 1)[0]`
abbrev pub before : ℕ → Text → Text
before sep [] = []
before sep (c ∷ t) = if c == sep then [] else c ∷ before sep t

-- the longest part at the front that passes the test, and what follows it
abbrev pub span : (ℕ → Bool) → Text → Text × Text
span p [] = ([], [])
span p (c ∷ t) = let (front, rest) = span p t in if p c then (c ∷ front, rest) else ([], c ∷ t)

pub span-append :
    (p : ℕ → Bool) (s t : Text)
    → all p s ≡ true
    → (span p t).0 ≡ []
    → span p (s ++ t) ≡ (s, (span p t).1)
span-append p [] t h e = ground arith
span-append p (c ∷ s) t h e = ground (arith, span-append p s t)

pub span-all : (p : ℕ → Bool) (t : Text) → all p (span p t).0 ≡ true
span-all p [] = refl
span-all p (c ∷ t) = ground (arith, span-all p t)

pub span_whole : (p : ℕ → Bool) (t : Text) → all p t ≡ true → span p t ≡ (t, [])
span_whole p [] h = refl
span_whole p (c ∷ t) h = ground (arith, span_whole p t)
