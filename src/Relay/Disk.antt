-- ===== src/Relay/Disk.antt =====
-- A file that holds a map in JSON, as the file stores of crates/lockrail-relay/src/lib.rs read and
-- write it, with the failures of the operating system as inputs.
use lockrail.Prelude.{ℕ, Bool, true, [], if◌then◌else◌, Result, ok, err}
use lockrail.Prelude.Map.{Map}
use lockrail.Vault.Error.{VaultError, io, json}

abbrev Store : Type 0
Store = Map ℕ

-- What the file holds: nothing yet, a map in JSON, or bytes that are no map.
pub data Content : Type 0 where
  absent : Content
  holds : Store → Content
  garbled : Content

-- How the calls of the operating system go: the directory and the lock, the read, and the write,
-- with what a failed write leaves behind.
pub record Disk : Type 0 where
  pub prepared : Bool
  pub readable : Bool
  pub writable : Bool
  pub left : Content

abbrev pub smooth : Disk
smooth = record { prepared = true; readable = true; writable = true; left = absent }

unfoldable pub load : Disk → Content → Result VaultError Store
load disk absent = ok []
load disk garbled = if disk.readable then err json else err io
load disk (holds m) = if disk.readable then ok m else err io

unfoldable pub save : Disk → Store → Result VaultError (Unit {0}) × Content
save disk m = if disk.writable then (ok tt, holds m) else (err io, disk.left)

-- The map that a file stands for.
abbrev pub map_of : Content → Store
map_of absent = []
map_of (holds m) = m
map_of garbled = []

abbrev pub IsReadable : Content → Type 0
IsReadable garbled = ⊥
IsReadable c = Unit
