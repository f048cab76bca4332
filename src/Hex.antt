-- ===== src/Hex.antt =====
-- encoding/hex: `EncodeToString`.
use lfs_server_go.Prelude.{ℕ, ◌+◌, ◌/◌, ◌%◌, [], ◌∷◌, ltb, if◌then◌else◌}
use lfs_server_go.Text.{Bytes}

unfoldable pub hex_digit : ℕ → ℕ
hex_digit n = if ltb n 10 then n + 48 else n + 87

unfoldable pub encode_to_string : Bytes → Bytes
unfolding hex_digit
encode_to_string [] = []
encode_to_string (b ∷ s) = hex_digit (b / 16) ∷ hex_digit (b % 16) ∷ encode_to_string s
