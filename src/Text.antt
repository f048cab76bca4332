-- ===== src/Text.antt =====
-- Go's strings and byte slices: lists of bytes, with the functions of the packages strings and
-- bytes that the program calls.
pub mod Laws
use Prim.Native.Char.{code}
use Prim.Native.String.{String}
use lfs_server_go.Prelude.{
  ℕ, zero, suc, Bool, true, false, ◌&&◌, ◌||◌, Option, none, some, List, [], ◌∷◌, ◌++◌, length,
  drop, eqb, if◌then◌else◌,
}
use mathlib.Core.Option
use mathlib.Core.List.{reverse}

abbrev pub Bytes : Type 0
Bytes = List ℕ

-- The bytes of an ASCII literal.
abbrev pub lit : String → Bytes
lit String.[] = []
lit (String.◌∷◌ c s) = code c ∷ lit s

-- `a == b` on strings.
infix 50 ◌==◌
unfoldable pub ◌==◌ : Bytes → Bytes → Bool
[] == [] = true
[] == (y ∷ ys) = false
(x ∷ xs) == [] = false
(x ∷ xs) == (y ∷ ys) = eqb x y && (xs == ys)

-- Whether a string is one of a list.
unfoldable pub one_of : List Bytes → Bytes → Bool
one_of [] s = false
one_of (t ∷ ts) s = (t == s) || one_of ts s

-- strings.HasPrefix
unfoldable pub has_prefix : Bytes → Bytes → Bool
has_prefix s [] = true
has_prefix [] (p ∷ ps) = false
has_prefix (c ∷ s) (p ∷ ps) = eqb c p && has_prefix s ps

-- strings.HasSuffix
unfoldable pub has_suffix : Bytes → Bytes → Bool
unfolding has_prefix
has_suffix s p = has_prefix (reverse s) (reverse p)

-- strings.TrimPrefix
unfoldable pub trim_prefix : Bytes → Bytes → Bytes
unfolding has_prefix
trim_prefix s p = if has_prefix s p then drop (length p) s else s

-- strings.IndexByte; `none` is -1.
unfoldable pub index_byte : Bytes → ℕ → Option ℕ
index_byte [] b = none
index_byte (c ∷ s) b =
    let later = Option.map suc (index_byte s b) in if eqb c b then some 0 else later

-- strings.Contains
unfoldable pub contains : Bytes → Bytes → Bool
unfolding has_prefix
contains [] p = has_prefix [] p
contains (c ∷ s) p = has_prefix (c ∷ s) p || contains s p

-- The first part of strings.Split(s, sep) for a separator of one byte.
unfoldable pub before : Bytes → ℕ → Bytes
before [] b = []
before (c ∷ s) b = let more = c ∷ before s b in if eqb c b then [] else more
