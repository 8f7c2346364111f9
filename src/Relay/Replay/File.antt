-- ===== src/Relay/Replay/File.antt =====
-- `FileReplayStore` of crates/lockrail-relay/src/lib.rs. Against the store in memory.
use lockrail.Prelude.{
  ℕ, ◌≤◌, ◌≡◌, refl, sym, ap, ◌∙◌, not, Option, none, some, arith, if◌then◌else◌, Result, ok, err,
  Option-cases, inl, inr,
}
use lockrail.Prelude.Text.{Text, text_eq}
use lockrail.Prelude.Map.{get, insert, retain, Distinct, passing, get-insert, get-retain}
use lockrail.Vault.Error.{VaultError, io, replay_detected}
use lockrail.Relay.Disk.{
  Content, absent, holds, garbled, Disk, smooth, load, save, map_of, IsReadable,
}
use lockrail.Relay.Replay.{Store, Use, is_some, live, check_key}

pub check_loaded :
    Disk → Content → Use → Result VaultError Store → Result VaultError (Unit {0}) × Content
unfolding save
check_loaded disk content u (err e) = (err e, content)
check_loaded disk content u (ok map) =
    let kept = retain (live u.now) map in
    if is_some (get kept u.key)
    then (err replay_detected, content)
    else save disk (insert kept u.key u.expires_at)

pub check_file : Disk → Content → Use → Result VaultError (Unit {0}) × Content
unfolding load check_loaded
check_file disk content u =
    if not disk.prepared then (err io, content) else check_loaded disk content u (load disk content)

-- Two stores look the same at a time if they hold the same keys that have not expired.
abbrev pub SameAt : ℕ → Store → Store → Type 0
SameAt now s t = (k : Text) → passing (live now) (get s k) ≡ passing (live now) (get t k)

file_step :
    (content : Content) (u : Use)
    → IsReadable content
    → check_file smooth content u ≡ check_loaded smooth content u (ok (map_of content))
unfolding check_file load
file_step absent u r = refl
file_step (holds m) u r = refl
file_step garbled u r = absurd r

-- A later time sees no more than an earlier one.
later_sees :
    (now later : ℕ) (x : Option ℕ)
    → now ≤ later
    → passing (live later) (passing (live now) x) ≡ passing (live later) x
later_sees now later none l = refl
later_sees now later (some e) l = ground arith

pub SameAt-later : (now later : ℕ) (s t : Store) → now ≤ later → SameAt now s t → SameAt later s t
SameAt-later now later s t l same k =
    sym (later_sees now later (get s k) l)
    ∙ ap (passing (live later)) (same k)
    ∙ later_sees now later (get t k) l

module _ (s m : Store) (u : Use) (ds : Distinct s) (dm : Distinct m) (same : SameAt u.now s m) where
  abbrev kept : Store → Store
  kept = retain (live u.now)

  kept_same : (k : Text) → get (kept s) k ≡ get (kept m) k
  kept_same k = get-retain (live u.now) s k ds ∙ same k ∙ sym (get-retain (live u.now) m k dm)

  inserted_same :
      (k : Text)
      → get (insert (kept s) u.key u.expires_at) k ≡ get (insert (kept m) u.key u.expires_at) k
  inserted_same k =
      get-insert (kept s) u.key k u.expires_at
      ∙ ap (λ o. if text_eq u.key k then some u.expires_at else o) (kept_same k)
      ∙ sym (get-insert (kept m) u.key k u.expires_at)

  kept_later :
      (later : ℕ) (k : Text)
      → u.now ≤ later
      → passing (live later) (get (kept s) k) ≡ passing (live later) (get m k)
  kept_later later k l =
      ap (passing (live later)) (kept_same k ∙ get-retain (live u.now) m k dm)
      ∙ later_sees u.now later (get m k) l

-- On a disk without failures and a readable file, if the file and the store in memory hold each
-- key once and look the same now, the file answers as the store does, and they look the same now
-- and later after the call.
pub check_file-refines :
    (s : Store) (content : Content) (u : Use)
    → IsReadable content
    → Distinct s
    → Distinct (map_of content)
    → SameAt u.now s (map_of content)
    → ((check_file smooth content u).0 ≡ (check_key s u).0)
      × ((later : ℕ)
          → u.now ≤ later
          → SameAt later (check_key s u).1 (map_of (check_file smooth content u).1))
unfolding check_key check_file check_loaded
check_file-refines s content u r ds dc same =
    rw (file_step content u r)
      (elim (Option-cases (get (kept s (map_of content) u ds dc same s) u.key)) [
        | inl n ↦
            let n' = sym (kept_same s m u ds dc same u.key) ∙ n in
            rw (n, n')
              (refl, λ later l k. ap (passing (live later)) (inserted_same s m u ds dc same k))
        | inr (e, h) ↦
            let h' = sym (kept_same s m u ds dc same u.key) ∙ h in
            rw (h, h') (refl, λ later l k. kept_later s m u ds dc same later k l)
      ])
  where
    m : Store
    m = map_of content
