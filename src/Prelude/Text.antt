-- ===== src/Prelude/Text.antt =====
-- `str.strip()`: the white space of Python's `str.isspace` is dropped at both ends.
use Prim.Native.Nat.{ℕ, ◌+◌}
use Prim.Native.Char.{code}
use Prim.Native.String.{String, ◌++◌}
use mathlib.Core.Path.{◌≡◌, refl, ap, ◌∙◌}
use mathlib.Core.Logic.{inl, inr}
use mathlib.Core.Bool.{Bool, true, false, ◌||◌, ◌&&◌}
use mathlib.Core.List.{List, [], ◌∷◌}
use ai_workflow_premortem_pu.Prelude.Tests.{if◌then◌else◌, leb, ◌==◌, nat_eq, Bool-cases}

-- U+0009-000D, U+001C-0020, U+0085, U+00A0, U+1680, U+2000-200A, U+2028-2029, U+202F, U+205F,
-- U+3000.
is_space_code : ℕ → Bool
is_space_code c =
    leb 9 c && leb c 13
    || leb 28 c && leb c 32
    || c == 0x85
    || c == 0xa0
    || c == 0x1680
    || leb 0x2000 c && leb c 0x200a
    || c == 0x2028
    || c == 0x2029
    || c == 0x202f
    || c == 0x205f
    || c == 0x3000

abbrev pub is_blank : String → Bool
is_blank String.[] = true
is_blank (String.◌∷◌ _ _) = false

-- `not s`, for a text: true of the empty one alone.
abbrev pub non_empty : String → Bool
non_empty String.[] = false
non_empty (String.◌∷◌ _ _) = true

lstrip : String → String
unfolding is_space_code
lstrip String.[] = String.[]
lstrip (String.◌∷◌ c s) =
    let rest = lstrip s in if is_space_code (code c) then rest else String.◌∷◌ c s

rstrip : String → String
unfolding is_space_code
rstrip String.[] = String.[]
rstrip (String.◌∷◌ c s) =
    let rest = rstrip s in
    if is_space_code (code c) && is_blank rest then String.[] else String.◌∷◌ c rest

unfoldable pub strip : String → String
unfolding lstrip rstrip
strip s = rstrip (lstrip s)

-- The text is empty or starts with no white space.
Trimmed : String → Type 0
Trimmed String.[] = Unit
Trimmed (String.◌∷◌ c s) = is_space_code (code c) ≡ false

lstrip-Trimmed : (s : String) → Trimmed (lstrip s)
unfolding lstrip Trimmed
lstrip-Trimmed String.[] = tt
lstrip-Trimmed (String.◌∷◌ c s) = elim (Bool-cases (is_space_code (code c))) [
  | inl t ↦ rw t (lstrip-Trimmed s)
  | inr f ↦ rw f f
]

Trimmed-lstrip : (s : String) → Trimmed s → lstrip s ≡ s
unfolding lstrip Trimmed
Trimmed-lstrip String.[] h = refl
Trimmed-lstrip (String.◌∷◌ c s) h = rw h

rstrip-Trimmed : (s : String) → Trimmed s → Trimmed (rstrip s)
unfolding rstrip Trimmed
rstrip-Trimmed String.[] h = tt
rstrip-Trimmed (String.◌∷◌ c s) h = rw h h

rstrip-rstrip : (s : String) → rstrip (rstrip s) ≡ rstrip s
unfolding rstrip
rstrip-rstrip String.[] = refl
rstrip-rstrip (String.◌∷◌ c s) = elim (Bool-cases (is_space_code (code c) && is_blank (rstrip s))) [
  | inl t ↦ rw t
  | inr f ↦ rw f (rw (rstrip-rstrip s) (rw f))
]

pub strip-strip : (s : String) → strip (strip s) ≡ strip s
unfolding strip
strip-strip s =
    ap rstrip (Trimmed-lstrip (rstrip (lstrip s)) (rstrip-Trimmed (lstrip s) (lstrip-Trimmed s)))
    ∙ rstrip-rstrip (lstrip s)

pub strip-empty : non_empty (strip "") ≡ false
unfolding strip
strip-empty = refl

strip_both : strip "  a b \n" ≡ "a b"
unfolding strip
strip_both = refl

strip_all : strip " \t " ≡ ""
unfolding strip
strip_all = refl

-- `s + t` for texts.
abbrev pub concat : String → String → String
concat s t = s ++ t

-- `sep.join(parts)`
unfoldable pub join : String → List String → String
join sep [] = ""
join sep (s ∷ []) = s
join sep (s ∷ t ∷ ts) = s ++ (sep ++ join sep (t ∷ ts))

-- `ord` of the lower-case ASCII letter. No other letter but the Kelvin sign lowers to an ASCII
-- letter, and that one lowers to k, which no text compared here contains.
lower_code : ℕ → ℕ
lower_code c = if leb b'A' c && leb c b'Z' then c + 32 else c

-- `s.lower() == t`, for a text t of ASCII letters other than k.
unfoldable pub lower_eq : String → String → Bool
unfolding lower_code
lower_eq String.[] String.[] = true
lower_eq (String.◌∷◌ c s) (String.◌∷◌ d t) = lower_code (code c) == code d && lower_eq s t
lower_eq _ _ = false
