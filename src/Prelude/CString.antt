-- ===== src/Prelude/CString.antt =====
-- C strings: the list of the bytes before the terminating NUL. A pointer into a string is the list
-- of the bytes from it on, so `*p` is the head, or the NUL at the end of the list.
use Prim.Native.Nat.{ℕ, ◌+◌, ◌-◌, ◌≤◌}
use Prim.Native.Char.{code}
use Prim.Native.String.{String}
use mathlib.Core.Path.{◌≡◌, refl}
use mathlib.Core.Bool.{Bool, true, false, ◌&&◌, ◌||◌}
use mathlib.Core.List.{List, [], ◌∷◌}
use native.Mathlib.Omega.{arith}
use mandoc_mirror.Prelude.Tests.{leb, ◌==◌, if◌then◌else◌}
use mandoc_mirror.Prelude.Lists.{length}

abbrev pub Bytes : Type 0
Bytes = List ℕ

-- The code points of a text, which are its bytes if it is ASCII.
abbrev pub codes : String → Bytes
codes String.[] = []
codes (String.◌∷◌ c s) = code c ∷ codes s

-- `*p`
abbrev pub peek : Bytes → ℕ
peek [] = 0
peek (c ∷ cs) = c

-- `p + 1`, where `*p` is known not to be the NUL
abbrev pub next : Bytes → Bytes
next [] = []
next (c ∷ cs) = cs

-- ctype(3) in the C locale
abbrev pub isspace : ℕ → Bool
isspace c = c == 32 || (leb 9 c && leb c 13)

abbrev pub isdigit : ℕ → Bool
isdigit c = leb b'0' c && leb c b'9'

abbrev pub isupper : ℕ → Bool
isupper c = leb b'A' c && leb c b'Z'

abbrev pub islower : ℕ → Bool
islower c = leb b'a' c && leb c b'z'

abbrev pub isalpha : ℕ → Bool
isalpha c = isupper c || islower c

abbrev pub isalnum : ℕ → Bool
isalnum c = isalpha c || isdigit c

abbrev pub tolower : ℕ → ℕ
tolower c = if isupper c then c + 32 else c

abbrev pub toupper : ℕ → ℕ
toupper c = if islower c then c - 32 else c

-- Whether a byte is one of a list, as `strchr(set, c) != NULL` for c other than the NUL.
unfoldable pub elem : ℕ → Bytes → Bool
elem c [] = false
elem c (x ∷ xs) = c == x || elem c xs

-- `strncmp(s, p, strlen(p)) == 0`
unfoldable pub has_prefix : Bytes → Bytes → Bool
has_prefix s [] = true
has_prefix [] (y ∷ ys) = false
has_prefix (x ∷ xs) (y ∷ ys) = x == y && has_prefix xs ys

-- `strncasecmp(s, p, strlen(p)) == 0`
unfoldable pub has_prefix_nocase : Bytes → Bytes → Bool
has_prefix_nocase s [] = true
has_prefix_nocase [] (y ∷ ys) = false
has_prefix_nocase (x ∷ xs) (y ∷ ys) = tolower x == tolower y && has_prefix_nocase xs ys

-- `strcmp(s, t) == 0`
unfoldable pub str_same : Bytes → Bytes → Bool
str_same [] [] = true
str_same (c ∷ s) (d ∷ t) = if c == d then str_same s t else false
str_same _ _ = false

pub str_same→eq : (s t : Bytes) → str_same s t ≡ true → s ≡ t
unfolding str_same
str_same→eq [] [] h = refl
str_same→eq [] (d ∷ t) h = cc
str_same→eq (c ∷ s) [] h = cc
str_same→eq (c ∷ s) (d ∷ t) h = ground (arith, str_same→eq s t)

pub str_same_refl : (s : Bytes) → str_same s s ≡ true
unfolding str_same
str_same_refl [] = refl
str_same_refl (c ∷ s) = ground (arith, str_same_refl s)

-- `while (isspace(*p)) p++`
unfoldable pub skip_space : Bytes → Bytes
skip_space [] = []
skip_space (c ∷ cs) = elim (isspace c) [ true ↦ skip_space cs | false ↦ c ∷ cs ]

-- `p` points into the string that starts at `s`.
pub data Suffix (p : Bytes) : Bytes → Type 0 where
  here : Suffix p p
  there : {c : ℕ} {s : Bytes} → Suffix p s → Suffix p (c ∷ s)

pub Suffix-trans : {p q s : Bytes} → Suffix p q → Suffix q s → Suffix p s
Suffix-trans h here = h
Suffix-trans h (there k) = there (Suffix-trans h k)

pub length-Suffix : {p s : Bytes} → Suffix p s → length p ≤ length s
length-Suffix here = omega arith
length-Suffix (there h) = omega (arith, length-Suffix h)

pub Suffix-next : (s : Bytes) → Suffix (next s) s
Suffix-next [] = here
Suffix-next (c ∷ cs) = there here

pub skip_space-Suffix : (s : Bytes) → Suffix (skip_space s) s
unfolding skip_space
skip_space-Suffix [] = here
skip_space-Suffix (c ∷ cs) =
    elim (isspace c) as (λ b. Suffix (elim b [ true ↦ skip_space cs | false ↦ c ∷ cs ]) (c ∷ cs)) [
      | true ↦ there (skip_space-Suffix cs)
      | false ↦ here
    ]
