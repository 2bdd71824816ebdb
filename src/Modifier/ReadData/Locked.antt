-- ===== src/Modifier/ReadData/Locked.antt =====
-- What a process that keeps its secrets in locked memory reads.
use tierceron.Base.{ℕ, ◌≡◌, ◌≢◌, true, false, Option, none, some, List, [], arith}
use tierceron.GoStrings.{Text, codes, has_prefix}
use tierceron.Modifier.{Modifier}
use tierceron.Modifier.Paths.{section_or_path, read_data_path}
use tierceron.Modifier.ReadData.{
  Memory, read_data, finish_read, finish_part, finish_fields, fields_lockable, fix_argos_id,
  read_loop, fix_tested_date,
}
use tierceron.Modifier.Vault.{Fields, Part, absent, fields, other, Secret, Error, Vault, returned}

finish_fields-lockable :
    (memory : Memory) (bucket path : Text) (err err' : Option Error) (n n' : ℕ) (log : List Text)
    (o : Option Fields) (d : Fields)
    → memory.memonly ≡ true
    → has_prefix path (codes "templates") ≡ false
    → finish_fields memory bucket path err n o ≡ returned (some d) err' n' log
    → (fields_lockable (memory.check bucket) d ≡ true) × (d ≢ [])
finish_fields-lockable memory bucket path err err' n n' log none d h k e = ground arith
finish_fields-lockable memory bucket path err err' n n' log (some f) d h k e = ground arith

finish_part-lockable :
    (memory : Memory) (bucket path full : Text) (secret : Secret) (err err' : Option Error)
    (n n' : ℕ) (log : List Text) (part : Part) (d : Fields)
    → memory.memonly ≡ true
    → has_prefix path (codes "templates") ≡ false
    → finish_part memory bucket path full secret err n part ≡ returned (some d) err' n' log
    → (fields_lockable (memory.check bucket) d ≡ true) × (d ≢ [])
finish_part-lockable memory bucket path full secret err err' n n' log absent d h k e = ground arith
finish_part-lockable memory bucket path full secret err err' n n' log other d h k e = ground arith
finish_part-lockable memory bucket path full secret err err' n n' log (fields f) d h k e =
    finish_fields-lockable memory bucket path err err' n n' log
      (fix_argos_id full (fix_tested_date secret.metadata_part f)) d h k e

finish_read-lockable :
    (memory : Memory) (bucket path full : Text) (o : Option Secret) (e e' : Option Error) (n n' : ℕ)
    (log : List Text) (d : Fields)
    → memory.memonly ≡ true
    → has_prefix path (codes "templates") ≡ false
    → finish_read memory bucket path full (record { secret = o; err = e }) n
      ≡ returned (some d) e' n' log
    → (fields_lockable (memory.check bucket) d ≡ true) × (d ≢ [])
unfolding finish_read
finish_read-lockable memory bucket path full none e e' n n' log d h k q = ground arith
finish_read-lockable memory bucket path full (some s) e e' n n' log d h k q =
    finish_part-lockable memory bucket path full s e e' n n' log s.data_part d h k q

-- A process that keeps its secrets in locked memory gets data from `ReadData`, of a path that is no
-- template's, only if there is some and each value that the build wants locked, and each element
-- of such a list, is of a type that can be.
read_data-lockable :
    (memory : Memory) (m : Modifier) (vault : Vault) (bucket : Text) (err : Option Error) (n : ℕ)
    (log : List Text) (d : Fields)
    → memory.memonly ≡ true
    → has_prefix (section_or_path m bucket) (codes "templates") ≡ false
    → (read_data memory m vault bucket).0 ≡ returned (some d) err n log
    → (fields_lockable (memory.check bucket) d ≡ true) × (d ≢ [])
unfolding read_data
read_data-lockable memory m vault bucket err n log d h k e =
    let path = section_or_path m bucket in
    let full = read_data_path m path in
    let (reply, requests, m') = read_loop vault path full 7 0 m in
    finish_read-lockable memory bucket path full reply.secret reply.err err requests n log d h k e
