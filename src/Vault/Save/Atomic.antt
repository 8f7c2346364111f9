-- ===== src/Vault/Save/Atomic.antt =====
-- What the file holds after `save`.
use lockrail.Prelude.{ℕ, ◌≡◌, refl, ◌⊎◌, inl, inr, true, ok, length, Result-cases, Bool-cases}
use lockrail.Prelude.Text.{Text}
use lockrail.Vault.Envelope.RoundTrip.{LibraryLaws, ReadsBack, open_bytes-seal_data}
use lockrail.Vault.Exec.{
  Session, gets, lift, refuse, Write, written, failed, unsynced, write_file, ◌>>=◌,
}
use lockrail.Vault.Libraries.{Libraries}
use lockrail.Vault.Save.{Io, sealed, save, open_vault}
use lockrail.Vault.Envelope.{open_bytes}

-- The file once the text is made: the write fails before the rename, or the file has the text.
module _ (libs : Libraries) (now : ℕ) (s : Session) (bytes : Text) where
  after_write :
      (w : Write)
      → open_bytes libs now s.password bytes ≡ ok (s.kdf, s.data')
      → ((write_file w bytes s).1.file ≡ s.file)
        ⊎ (open_vault libs true now s.password (write_file w bytes s).1.file s.docs
            ≡ ok (write_file w bytes s).1)
  unfolding write_file open_vault
  after_write written h = inr (rw h refl)
  after_write failed h = inl refl
  after_write unsynced h = inr (rw h refl)

module _ (libs : Libraries) (io : Io) (now : ℕ) (s : Session) where
  -- If the libraries read back what they write, the data among it, and the nonce has 12 bytes,
  -- then the file after `save` is as it was, or opening it gives the session as it is then.
  pub open_vault-save :
      LibraryLaws libs
      → ReadsBack libs s.data'
      → length io.nonce ≡ 12
      → ((save libs io s).1.file ≡ s.file)
        ⊎ (open_vault libs true now s.password (save libs io s).1.file s.docs
            ≡ ok (save libs io s).1)
  unfolding save gets lift refuse ◌>>=◌
  open_vault-save laws reads twelve = elim (Bool-cases io.locked) [
    | inr e ↦ rw e (inl refl)
    | inl e ↦ elim (Result-cases (sealed libs io s)) [
      | inr (f, n) ↦ rw (e, n) (inl refl)
      | inl (bytes, y) ↦
          rw (e, y)
            (after_write libs now s bytes io.write (
              open_bytes-seal_data libs laws now s.password s.kdf s.data' io.salt io.nonce twelve
                reads y))
    ]
  ]
