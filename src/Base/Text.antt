-- ===== src/Base/Text.antt =====
-- Go's `strings.TrimSpace`, and the order of strings that `sort.Strings` uses: by bytes of UTF-8,
-- which is by code points.
use Prim.Native.Char.{code}
use text.Mathlib.TextEquality.{Char-path}
use dockyards_talos.Base.{
  ℕ, String, ◌≡◌, refl, ap₂, ◌⊎◌, inl, inr, Bool, true, false, ◌&&◌, ◌||◌, arith, ltb, leb, nat_eq,
  if◌then◌else◌, ◌==◌, string_eq, Bool-cases,
}

-- `unicode.IsSpace`
abbrev pub is_space : ℕ → Bool
is_space c =
    (leb 9 c && leb c 13)
    || nat_eq c 32
    || nat_eq c 0x85
    || nat_eq c 0xa0
    || nat_eq c 0x1680
    || (leb 0x2000 c && leb c 0x200a)
    || nat_eq c 0x2028
    || nat_eq c 0x2029
    || nat_eq c 0x202f
    || nat_eq c 0x205f
    || nat_eq c 0x3000

unfoldable pub trim_left : String → String
trim_left String.[] = String.[]
trim_left (String.◌∷◌ c s) = if is_space (code c) then trim_left s else String.◌∷◌ c s

unfoldable pub trim_right : String → String
trim_right String.[] = String.[]
trim_right (String.◌∷◌ c s) =
    let rest = trim_right s in
    if is_space (code c) && (rest == "") then String.[] else String.◌∷◌ c rest

unfoldable pub trim_space : String → String
trim_space s = trim_right (trim_left s)

trimmed_example : trim_space " eth 1\t " ≡ "eth 1"
unfolding trim_space trim_left trim_right string_eq
trimmed_example = refl

trim_right_idem : (s : String) → trim_right (trim_right s) ≡ trim_right s
unfolding trim_right
trim_right_idem String.[] = refl
trim_right_idem (String.◌∷◌ c s) = ground (arith, trim_right_idem s)

trim_left-trim_right :
    (s : String) → trim_left (trim_right (trim_left s)) ≡ trim_right (trim_left s)
unfolding trim_right trim_left
trim_left-trim_right String.[] = refl
trim_left-trim_right (String.◌∷◌ c s) = elim (Bool-cases (is_space (code c))) [
  | inl space ↦ rw (space, trim_left) (trim_left-trim_right s)
  | inr other ↦ ground arith
]

-- To trim a second time changes nothing.
pub trim_space_idem : (s : String) → trim_space (trim_space s) ≡ trim_space s
unfolding trim_space
trim_space_idem s = rw (trim_left-trim_right s) (trim_right_idem (trim_left s))

-- `a <= b` on strings.
unfoldable pub leb_string : String → String → Bool
leb_string String.[] t = true
leb_string (String.◌∷◌ c s) String.[] = false
leb_string (String.◌∷◌ c s) (String.◌∷◌ d t) =
    let rest = leb_string s t in
    if ltb (code c) (code d) then true else if nat_eq (code c) (code d) then rest else false

pub leb_string_total : (s t : String) → (leb_string s t ≡ true) ⊎ (leb_string t s ≡ true)
unfolding leb_string
leb_string_total String.[] t = inl refl
leb_string_total (String.◌∷◌ c s) String.[] = inr refl
leb_string_total (String.◌∷◌ c s) (String.◌∷◌ d t) = ground (arith, leb_string_total s t)

pub leb_string_trans :
    (s t u : String) → leb_string s t ≡ true → leb_string t u ≡ true → leb_string s u ≡ true
unfolding leb_string
leb_string_trans String.[] t u h k = refl
leb_string_trans (String.◌∷◌ c s) String.[] u h k = cc
leb_string_trans (String.◌∷◌ c s) (String.◌∷◌ d t) String.[] h k = cc
leb_string_trans (String.◌∷◌ c s) (String.◌∷◌ d t) (String.◌∷◌ e u) h k =
    ground (arith, leb_string_trans s t u)

pub leb_string_antisymm : (s t : String) → leb_string s t ≡ true → leb_string t s ≡ true → s ≡ t
unfolding leb_string
leb_string_antisymm String.[] String.[] h k = refl
leb_string_antisymm String.[] (String.◌∷◌ d t) h k = cc
leb_string_antisymm (String.◌∷◌ c s) String.[] h k = cc
leb_string_antisymm (String.◌∷◌ c s) (String.◌∷◌ d t) h k =
    ap₂ String.◌∷◌ (Char-path c d (ground arith))
      (leb_string_antisymm s t (ground arith) (ground arith))
