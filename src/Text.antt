-- ===== src/Text.antt =====
-- The operations of std::string that the server uses (find, rfind, substr, replace, compare), over
-- the bytes of the text. `none` is `std::string::npos`.
pub mod Find
pub mod Decimal
pub mod Hex
pub mod Map
use Prim.Native.Char.{code}
use vyatta_rest.Prelude.{
  ℕ, zero, suc, ◌+◌, String, Bool, true, false, ◌&&◌, List, [], ◌∷◌, ◌++◌, Option, none, some, ltb,
  leb, ◌==◌, if◌then◌else◌, length, take, drop,
}

abbrev pub Str : Type 0
Str = List ℕ

-- The bytes of an ASCII literal.
abbrev pub codes : String → Str
codes String.[] = []
codes (String.◌∷◌ c s) = code c ∷ codes s

abbrev pub empty : Str → Bool
empty [] = true
empty (c ∷ s) = false

-- A C string ends at its first NUL byte.
unfoldable pub c_str : Str → Str
c_str [] = []
c_str (zero ∷ s) = []
c_str (suc c ∷ s) = suc c ∷ c_str s

-- operator==
unfoldable pub str_eq : Str → Str → Bool
str_eq [] [] = true
str_eq (x ∷ xs) (y ∷ ys) = x == y && str_eq xs ys
str_eq _ _ = false

-- `s.compare(0, p.size(), p) == 0` for a long enough `s`, and `s.find(p) == 0`.
unfoldable pub starts_with : Str → Str → Bool
starts_with [] s = true
starts_with (x ∷ xs) [] = false
starts_with (x ∷ xs) (y ∷ ys) = x == y && starts_with xs ys

abbrev later : Option ℕ → Option ℕ
later none = none
later (some n) = some (suc n)

-- `s.find(p)`, the first position at which `p` stands.
unfoldable pub find : Str → Str → Option ℕ
find p [] = if empty p then some 0 else none
find p (x ∷ xs) = if starts_with p (x ∷ xs) then some 0 else later (find p xs)

abbrev pub shift : ℕ → Option ℕ → Option ℕ
shift k none = none
shift k (some n) = some (k + n)

-- `s.find(p, pos)`
unfoldable pub find_from : Str → Str → ℕ → Option ℕ
find_from p s pos = if ltb (length s) pos then none else shift pos (find p (drop pos s))

-- `s.find(p) != npos`
unfoldable pub contains : Str → Str → Bool
contains p s = elim (find p s) [ none ↦ false | some n ↦ true ]

-- `s.rfind(c)` for a one-byte `c`
unfoldable pub rfind : ℕ → Str → Option ℕ
rfind c [] = none
rfind c (x ∷ xs) = elim (rfind c xs) [
  | none ↦ if x == c then some 0 else none
  | some n ↦ some (suc n)
]

-- `s.substr(pos, n)` throws `std::out_of_range` past the end; `none` stands for the exception.
unfoldable pub substr? : Str → ℕ → ℕ → Option Str
substr? s pos n = if ltb (length s) pos then none else some (take n (drop pos s))

-- `s.substr(pos)`
unfoldable pub substr_from? : Str → ℕ → Option Str
substr_from? s pos = if ltb (length s) pos then none else some (drop pos s)

-- `s.replace(pos, n, r)` at a position that `find` has returned
abbrev pub replace_at : Str → ℕ → ℕ → Str → Str
replace_at s pos n r = take pos s ++ (r ++ drop (pos + n) s)
