-- ===== src/Base64.antt =====
-- base64.URLEncoding of Go's encoding/base64: `DecodeString`, which the authorization header goes
-- through, and `EncodeToString`, by which a client makes that header.
pub mod Laws
use lfs_server_go.Prelude.{
  ℕ, ◌+◌, ◌-◌, ◌*◌, ◌/◌, ◌%◌, Bool, ◌&&◌, ◌||◌, Option, none, some, List, [], ◌∷◌, ltb, leb, eqb,
  if◌then◌else◌,
}
use lfs_server_go.Text.{Bytes}

-- The value of a character of the URL alphabet.
unfoldable pub digit : ℕ → Option ℕ
digit c =
    if leb b'A' c && leb c b'Z'
    then some (c - 65)
    else if leb b'a' c && leb c b'z'
    then some (c - 71)
    else if leb b'0' c && leb c b'9'
    then some (c + 4)
    else if eqb c b'-'
    then some 62
    else if eqb c b'_'
    then some 63
    else none

-- DecodeString skips line breaks wherever they stand.
unfoldable pub without_breaks : Bytes → Bytes
without_breaks [] = []
without_breaks (c ∷ s) =
    let rest = without_breaks s in if eqb c 10 || eqb c 13 then rest else c ∷ rest

infixl 5 ◌>>=◌
abbrev ◌>>=◌ {ℓ κ} : {A : Type ℓ} {B : Type κ} → Option A → (A → Option B) → Option B
none >>= k = none
some a >>= k = k a

abbrev pad : ℕ
pad = b'='

-- Groups of four characters; the last may end in padding, and its spare bits are not looked at.
unfoldable pub quanta : Bytes → Option Bytes
quanta [] = some []
quanta (a ∷ b ∷ c ∷ d ∷ []) = do
  x ← digit a
  y ← digit b
  if eqb c pad && eqb d pad then some ((x * 4 + y / 16) ∷ []) else do
    z ← digit c
    if eqb d pad
        then some ((x * 4 + y / 16) ∷ (y % 16 * 16 + z / 4) ∷ [])
        else do w ← digit d; some ((x * 4 + y / 16) ∷ (y % 16 * 16 + z / 4) ∷ (z % 4 * 64 + w) ∷ [])
quanta (a ∷ b ∷ c ∷ d ∷ e ∷ rest) = do
  x ← digit a
  y ← digit b
  z ← digit c
  w ← digit d
  later ← quanta (e ∷ rest)
  some ((x * 4 + y / 16) ∷ (y % 16 * 16 + z / 4) ∷ (z % 4 * 64 + w) ∷ later)
quanta _ = none

unfoldable pub decode : Bytes → Option Bytes
unfolding quanta without_breaks digit
decode s = quanta (without_breaks s)

-- The character of a value below 64.
unfoldable pub symbol : ℕ → ℕ
symbol n =
    if ltb n 26
    then n + 65
    else if ltb n 52
    then n + 71
    else if ltb n 62
    then n - 4
    else if eqb n 62
    then b'-'
    else b'_'

unfoldable pub encode : Bytes → Bytes
unfolding symbol
encode [] = []
encode (p ∷ []) = symbol (p / 4) ∷ symbol (p % 4 * 16) ∷ pad ∷ pad ∷ []
encode (p ∷ q ∷ []) = symbol (p / 4) ∷ symbol (p % 4 * 16 + q / 16) ∷ symbol (q % 16 * 4) ∷ pad ∷ []
encode (p ∷ q ∷ r ∷ rest) =
    symbol (p / 4)
    ∷ symbol (p % 4 * 16 + q / 16)
    ∷ symbol (q % 16 * 4 + r / 64)
    ∷ symbol (r % 64)
    ∷ encode rest
