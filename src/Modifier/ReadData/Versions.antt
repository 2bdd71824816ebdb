-- ===== src/Modifier/ReadData/Versions.antt =====
-- The version that `ReadData` asks for, and the number of its requests.
use tierceron.Base.{
  ℕ, zero, suc, ◌+◌, ◌≤◌, ◌≡◌, refl, Bool, true, false, Option, none, some, [], ◌∷◌, ◌++◌, arith,
  if◌then◌else◌,
}
use tierceron.GoStrings.{Text, codes, is_empty, has_prefix, text_eq}
use tierceron.GoStrings.Search.{Lacks, has_suffix-append, has_suffix-Lacks}
use tierceron.GoStrings.Split.{split-first}
use tierceron.Modifier.{Modifier}
use tierceron.Modifier.ReadData.{x_mode, read_query, answer, read_loop, is_error}
use tierceron.Modifier.Vault.{Reply, Request, read, read_version, Vault}

marked-not_zero : (v : Text) → text_eq (v ++ x_mode) (codes "0") ≡ false
unfolding text_eq
marked-not_zero [] = refl
marked-not_zero (c ∷ []) = ground arith
marked-not_zero (c ∷ d ∷ v) = ground arith

marked-given : (v : Text) → is_empty (v ++ x_mode) ≡ false
marked-given [] = refl
marked-given (c ∷ v) = refl

-- In the X mode, the first attempt to read a template asks for the version that stands before the
-- mark of the mode, and takes the mark off the modifier: each later attempt, of this call and of
-- the next, asks for the newest version. The version must not hold an asterisk.
pub read_query-x_mode :
    (m : Modifier) (path full v : Text)
    → m.version ≡ v ++ x_mode
    → Lacks b'*' v
    → has_prefix path (codes "templates") ≡ true
    → (read_query m path full ≡ (some (read_version full v), record m { version = v }))
      × (read_query (record m { version = v }) path full
          ≡ (some (read full), record m { version = v }))
unfolding read_query
read_query-x_mode m path full v e h k =
    let (ps, q) = split-first b'*' (codes "**") v (codes "X-Mode") h in
    (
      rw (e, has_suffix-append v x_mode, marked-not_zero v, marked-given v, k, q) refl,
      rw (has_suffix-Lacks b'*' v (codes "**X-Mode") h, k) (ground arith),
    )

answer-requests :
    (vault : Vault) (n : ℕ) (o : Option Request)
    → (n ≤ (answer vault n o).1) × ((answer vault n o).1 ≤ suc n)
answer-requests vault n none = (omega arith, omega arith)
answer-requests vault n (some request) = (omega arith, omega arith)

-- a number of requests between two bounds
abbrev pub Between : ℕ → ℕ → Reply × ℕ × Modifier → Type 0
Between low high (reply, n, m) = (low ≤ n) × (n ≤ high)

Between-if :
    (low high middle : ℕ) (b : Bool) (again done : Reply × ℕ × Modifier)
    → low ≤ middle
    → Between middle high again
    → Between low high done
    → Between low high (if b then again else done)
Between-if low high middle true (reply, n, m) done h (k, l) q = (omega arith, l)
Between-if low high middle false again done h k q = q

-- The loop of `ReadData` with `left` retries left ends, whatever the vault answers, after at most
-- one request more than that: the eight attempts of a call are at most eight requests.
read_loop-requests :
    (vault : Vault) (path full : Text) (left n high : ℕ) (m : Modifier)
    → n + suc left ≤ high
    → Between n high (read_loop vault path full left n m)
unfolding read_loop
read_loop-requests vault path full zero n high m h =
    let (a, b) = answer-requests vault n (read_query m path full).0 in (a, omega arith)
read_loop-requests vault path full (suc left) n high m h =
    let (request, m') = read_query m path full in
    let (reply, n') = answer vault n request in
    let (a, b) = answer-requests vault n request in
    Between-if n high n' (is_error reply.err) (read_loop vault path full left n' m') (reply, n', m')
      a (read_loop-requests vault path full left n' high m' (omega arith)) (a, omega arith)
