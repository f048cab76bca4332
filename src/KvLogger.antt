-- ===== src/KvLogger.antt =====
-- kvlogger.go: log lines, and the goroutines that write them. What the runtime, the clock, the
-- operating system and fmt give is a parameter.
pub mod Lines
use lfs_server_go.Prelude.{
  ℕ, ◌≡◌, Bool, true, false, Option, none, some, List, [], ◌∷◌, ◌++◌, map, eqb, if◌then◌else◌,
}
use lfs_server_go.Text.{Bytes, lit, ◌==◌}
use lfs_server_go.Errors.{Result, ok, err}

-- The variables `pid` and `hostname`.
pub record Process : Type 0 where
  pub pid : ℕ
  pub hostname : Bytes

-- `init`, with what os.Getpid and os.Hostname return.
unfoldable pub init : ℕ → Result Bytes → Process
init pid host = record { pid = pid; hostname = elim host [ ok h ↦ h | err e ↦ lit "localhost" ] }

-- What a call of `Log` is made with: the time, the file and the line of the caller, if the runtime
-- knows it, and how fmt writes a number.
pub record Call : Type 0 where
  pub now : Bytes
  pub caller : Option (Bytes × ℕ)
  pub itoa : ℕ → Bytes

-- The part of a path behind its last slash.
unfoldable pub last_element : Bytes → Bytes → Bytes
last_element so_far [] = so_far
last_element so_far (c ∷ s) =
    if eqb c b'/' then last_element [] s else last_element (so_far ++ c ∷ []) s

unfoldable pub without_slashes : Bytes → Bytes
without_slashes [] = []
without_slashes (c ∷ s) =
    let rest = without_slashes s in
    if eqb c b'/' then (if rest == [] then [] else c ∷ rest) else c ∷ rest

-- path.Base
unfoldable pub base : Bytes → Bytes
unfolding last_element without_slashes
base path =
    if path == []
    then lit "."
    else let cut = without_slashes path in if cut == [] then lit "/" else last_element [] cut

unfoldable pub position : Call → Bytes × ℕ
unfolding base
position c = elim c.caller [ some (file, line) ↦ (base file, line) | none ↦ (lit "???", 0) ]

-- `fmt.Sprintf("%s=%v", k, v)`, with the text of the value.
abbrev pub pair_text : Bytes × Bytes → Bytes
pair_text (k, v) = k ++ lit "=" ++ v

-- strings.Join(vals, " ")
unfoldable pub join_spaces : List Bytes → Bytes
join_spaces [] = []
join_spaces (v ∷ []) = v
join_spaces (v ∷ w ∷ vs) = v ++ lit " " ++ join_spaces (w ∷ vs)

-- What `Log` prints, for the pairs in the order in which the runtime ranges over the map.
unfoldable pub log_line : Process → Call → List (Bytes × Bytes) → Bytes
unfolding position join_spaces
log_line process c entries =
    let (file, line) = position c in
    c.now
    ++ lit " "
    ++ process.hostname
    ++ lit " lfs["
    ++ c.itoa process.pid
    ++ lit "] ["
    ++ file
    ++ lit ":"
    ++ c.itoa line
    ++ lit "]: "
    ++ join_spaces (map pair_text entries)
    ++ lit "\n"

-- `Log`, of a goroutine alone: the output with the line.
unfoldable pub log : Process → Call → List (Bytes × Bytes) → Bytes → Bytes
unfolding log_line
log process c entries out = out ++ log_line process c entries

-- `Fatal`: the output, and the code that the program ends with.
unfoldable pub fatal : Process → Call → List (Bytes × Bytes) → Bytes → Bytes × ℕ
unfolding log
fatal process c entries out = (log process c entries out, 1)

-- Where a goroutine stands in `Log`.
pub data Pc : Type 0 where
  idle : Pc
  waiting : (line : Bytes) → Pc  -- before `Lock`
  writing : (line left : Bytes) → Pc  -- in `Fprint`, with what is left of the line; then `Unlock`

-- `KVLogger` (what its writer has got, and whether its mutex is locked) and the goroutines.
pub record Logger : Type 0 where
  pub out : Bytes
  pub locked : Bool
  pub pcs : ℕ → Pc

abbrev pub set_pc : (ℕ → Pc) → ℕ → Pc → ℕ → Pc
set_pc pcs i p j = if eqb i j then p else pcs j

abbrev pub new_logger : Logger
new_logger = record { out = []; locked = false; pcs = λ j. idle }

-- What the goroutines reach in any order, with the calls that have returned, the last one first:
-- the line of each and what the writer did not take of it. The writer may take a line in parts, and
-- fail before its end: `Fprint` then returns an error, which `Log` drops.
pub data Reach : List (Bytes × Bytes) → Logger → Type 0 where
  fresh : Reach [] new_logger
  call_log :
      {returned : List (Bytes × Bytes)} {l : Logger} (i : ℕ) (line : Bytes)
      → Reach returned l
      → l.pcs i ≡ idle
      → Reach returned (record l { pcs = set_pc l.pcs i (waiting line) })
  lock :
      {returned : List (Bytes × Bytes)} {l : Logger} (i : ℕ) (line : Bytes)
      → Reach returned l
      → l.pcs i ≡ waiting line
      → l.locked ≡ false
      → Reach returned (record l { locked = true; pcs = set_pc l.pcs i (writing line line) })
  write_byte :
      {returned : List (Bytes × Bytes)} {l : Logger} (i c : ℕ) (line left : Bytes)
      → Reach returned l
      → l.pcs i ≡ writing line (c ∷ left)
      → Reach returned
          (record l { out = l.out ++ c ∷ []; pcs = set_pc l.pcs i (writing line left) })
  unlock :
      {returned : List (Bytes × Bytes)} {l : Logger} (i : ℕ) (line left : Bytes)
      → Reach returned l
      → l.pcs i ≡ writing line left
      → Reach ((line, left) ∷ returned) (record l { locked = false; pcs = set_pc l.pcs i idle })
