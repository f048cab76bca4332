-- ===== src/Server/RequestLog.antt =====
-- The number of a request and the log of its answer, of server.go.
use lfs_server_go.Prelude.{ℕ, Option, none, some, List, [], ◌∷◌, ◌++◌, take, drop}
use lfs_server_go.Text.{Bytes, lit}
use lfs_server_go.Errors.{Result, ok, err}
use lfs_server_go.Hex.{encode_to_string}
use lfs_server_go.KvLogger.{Process, Call, log}

-- The bytes of a slice `b[m:n]`.
abbrev slice : ℕ → ℕ → Bytes → Bytes
slice m n b = drop m (take n b)

-- `ServeHTTP`: the number of 16 random bytes, in hexadecimal.
unfoldable pub request_id : Bytes → Bytes
request_id b =
    encode_to_string (slice 0 4 b)
    ++ lit "-"
    ++ encode_to_string (slice 4 6 b)
    ++ lit "-"
    ++ encode_to_string (slice 6 8 b)
    ++ lit "-"
    ++ encode_to_string (slice 8 10 b)
    ++ lit "-"
    ++ encode_to_string (drop 10 b)

-- What the context of a request has under "RequestID"; nothing where crypto/rand fails.
unfoldable pub context_id : Result Bytes → Option Bytes
unfolding request_id
context_id (ok b) = some (request_id b)
context_id (err e) = none

-- The pairs that `logRequest` logs; `url` is how fmt writes the URL.
unfoldable pub request_pairs : Call → Bytes → Bytes → ℕ → Option Bytes → List (Bytes × Bytes)
request_pairs c method url status id =
    (lit "method", method)
    ∷ (lit "url", url)
    ∷ (lit "status", c.itoa status)
    ∷ (lit "request_id", elim id [ none ↦ lit "<nil>" | some text ↦ text ])
    ∷ []

unfoldable pub log_request : Process → Call → Bytes → Bytes → ℕ → Option Bytes → Bytes → Bytes
unfolding request_pairs
log_request process c method url status id out =
    log process c (request_pairs c method url status id) out
