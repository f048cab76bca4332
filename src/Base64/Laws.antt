-- ===== src/Base64/Laws.antt =====
-- Decoding after encoding.
use lfs_server_go.Prelude.{
  ℕ, ◌+◌, ◌*◌, ◌/◌, ◌%◌, ◌<◌, ◌≡◌, refl, ◌∙◌, ◌≢◌, some, [], ◌∷◌, arith, All,
}
use lfs_server_go.Text.{Bytes}
use lfs_server_go.Base64.{digit, without_breaks, quanta, decode, symbol, encode, pad}

digit-symbol : (n : ℕ) → n < 64 → digit (symbol n) ≡ some n
unfolding digit symbol
digit-symbol n h = ground arith

symbol-ne : (n : ℕ) → (symbol n ≢ 10) × (symbol n ≢ 13) × (symbol n ≢ pad)
unfolding symbol
symbol-ne n = ground arith

-- A group of four digits is three bytes, whatever follows it.
quanta-group :
    (a b c d x y z w : ℕ) (rest later : Bytes)
    → digit a ≡ some x
    → digit b ≡ some y
    → digit c ≡ some z
    → digit d ≡ some w
    → c ≢ pad
    → d ≢ pad
    → quanta rest ≡ some later
    → quanta (a ∷ b ∷ c ∷ d ∷ rest)
      ≡ some ((x * 4 + y / 16) ∷ (y % 16 * 16 + z / 4) ∷ (z % 4 * 64 + w) ∷ later)
unfolding quanta
quanta-group a b c d x y z w [] later ha hb hc hd nc nd h = ground arith
quanta-group a b c d x y z w (e ∷ rest) later ha hb hc hd nc nd h = rw (ha, hb, hc, hd, h)

-- A character of the alphabet is no line break.
without_breaks-symbol :
    (n : ℕ) (s : Bytes) → without_breaks (symbol n ∷ s) ≡ symbol n ∷ without_breaks s
unfolding without_breaks
without_breaks-symbol n s = ground (arith, symbol-ne n)

without_breaks-pad : (s : Bytes) → without_breaks (pad ∷ s) ≡ pad ∷ without_breaks s
unfolding without_breaks
without_breaks-pad s = refl

without_breaks-nil : without_breaks [] ≡ []
unfolding without_breaks
without_breaks-nil = refl

ruleset break_laws = (without_breaks-symbol, without_breaks-pad, without_breaks-nil)

without_breaks-encode : (s : Bytes) → without_breaks (encode s) ≡ encode s
unfolding encode
without_breaks-encode [] = without_breaks-nil
without_breaks-encode (p ∷ []) = simp break_laws
without_breaks-encode (p ∷ q ∷ []) = simp break_laws
without_breaks-encode (p ∷ q ∷ r ∷ rest) = simp (break_laws, without_breaks-encode rest)

abbrev pub IsByte : ℕ → Type 0
IsByte b = b < 256

-- Three bytes are put together again from the four values that they were cut into.
regroup :
    (p q r : ℕ)
    → IsByte p
    → IsByte q
    → IsByte r
    → (p / 4 * 4 + (p % 4 * 16 + q / 16) / 16 ≡ p)
      × ((p % 4 * 16 + q / 16) % 16 * 16 + (q % 16 * 4 + r / 64) / 4 ≡ q)
      × ((q % 16 * 4 + r / 64) % 4 * 64 + r % 64 ≡ r)
regroup p q r hp hq hr = omega arith

quanta-encode : (s : Bytes) → All IsByte s → quanta (encode s) ≡ some s
unfolding encode quanta
quanta-encode [] h = refl
quanta-encode (p ∷ []) h =
    rw (digit-symbol (p / 4) (omega arith), digit-symbol (p % 4 * 16) (omega arith)) (ground arith)
quanta-encode (p ∷ q ∷ []) h =
    rw
      (
        digit-symbol (p / 4) (omega arith),
        digit-symbol (p % 4 * 16 + q / 16) (omega arith),
        digit-symbol (q % 16 * 4) (omega arith),
      )
      (ground (arith, symbol-ne (q % 16 * 4)))
quanta-encode (p ∷ q ∷ r ∷ rest) (hp, (hq, (hr, h))) =
    quanta-group _ _ _ _ _ _ _ _ (encode rest) rest (digit-symbol (p / 4) (omega arith))
      (digit-symbol (p % 4 * 16 + q / 16) (omega arith))
      (digit-symbol (q % 16 * 4 + r / 64) (omega arith)) (digit-symbol (r % 64) (omega arith))
      (symbol-ne (q % 16 * 4 + r / 64)).2 (symbol-ne (r % 64)).2 (quanta-encode rest h)
    ∙ ground (arith, regroup p q r hp hq hr)

-- Decoding gives back what was encoded.
pub decode-encode : (s : Bytes) → All IsByte s → decode (encode s) ≡ some s
unfolding decode
decode-encode s h = rw without_breaks-encode (quanta-encode s h)
