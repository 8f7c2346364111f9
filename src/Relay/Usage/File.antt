-- ===== src/Relay/Usage/File.antt =====
-- `FileUsageStore` of crates/lockrail-relay/src/lib.rs. Against the store in memory.
use lockrail.Prelude.{
  ℕ, ◌+◌, ◌%◌, ◌^◌, ◌≡◌, Bool, not, Option, arith, if◌then◌else◌, Result, ok, err,
}
use lockrail.Prelude.Text.{Text}
use lockrail.Prelude.Map.{insert}
use lockrail.Vault.Error.{VaultError, io, usage_limit_exceeded}
use lockrail.Relay.Disk.{
  Content, absent, holds, garbled, Disk, smooth, load, save, map_of, IsReadable,
}
use lockrail.Relay.Usage.{Store, current, exhausted, record_use}

unfoldable pub use_loaded :
    Disk → Content → Text → Option ℕ → Result VaultError Store → Result VaultError ℕ × Content
use_loaded disk content capability_hash max_uses (err e) = (err e, content)
use_loaded disk content capability_hash max_uses (ok map) =
    let n = current map capability_hash in
    let next = (n + 1) % 2 ^ 64 in
    if exhausted max_uses n
    then (err usage_limit_exceeded, content)
    else (let (r, after) = save disk (insert map capability_hash next) in
        (elim r [ ok u ↦ ok next | err e ↦ err e ], after))

unfoldable pub record_use_file : Disk → Content → Text → Option ℕ → Result VaultError ℕ × Content
unfolding load save use_loaded
record_use_file disk content capability_hash max_uses =
    if not disk.prepared
    then (err io, content)
    else use_loaded disk content capability_hash max_uses (load disk content)

-- On a disk without failures and a readable file, the file answers as the store in memory does,
-- and then holds its map.
pub record_use_file-refines :
    (content : Content) (capability_hash : Text) (max_uses : Option ℕ)
    → IsReadable content
    → ((record_use_file smooth content capability_hash max_uses).0
        ≡ (record_use (map_of content) capability_hash max_uses).0)
      × (map_of (record_use_file smooth content capability_hash max_uses).1
          ≡ (record_use (map_of content) capability_hash max_uses).1)
unfolding record_use_file record_use
record_use_file-refines absent k max_uses r = (ground arith, ground arith)
record_use_file-refines (holds m) k max_uses r = (ground arith, ground arith)
record_use_file-refines garbled k max_uses r = absurd r

-- An error leaves the file as it was, if writes do not fail.
pub record_use_file-err :
    (disk : Disk) (content : Content) (capability_hash : Text) (max_uses : Option ℕ)
    {e : VaultError}
    → disk.writable ≡ Bool.true
    → (record_use_file disk content capability_hash max_uses).0 ≡ err e
    → (record_use_file disk content capability_hash max_uses).1 ≡ content
unfolding record_use_file
record_use_file-err disk absent k max_uses w h = ground arith
record_use_file-err disk (holds m) k max_uses w h = ground arith
record_use_file-err disk garbled k max_uses w h = ground arith
