-- ===== src/Relay/Replay/Tests.antt =====
-- Examples of the replay stores.
use lockrail.Prelude.{ℕ, ◌≡◌, ◌↔◌, ◌≤◌, ◌<◌, refl, some, [], ◌∷◌, arith, ok, err}
use lockrail.Prelude.Text.{Text, codes, text_eq}
use lockrail.Prelude.Map.{Distinct, get, retain}
use lockrail.Relay.Disk.{absent, smooth, map_of}
use lockrail.Relay.Replay.{Store, Use, check_key, run}
use lockrail.Relay.Replay.File.{check_file, SameAt, check_file-refines}
use lockrail.Relay.Replay.Once.{replay_refused, check_key-ok_iff}
use lockrail.Vault.Error.{replay_detected}

abbrev use_at : ℕ → Text → Use
use_at now key = record { now = now; key = key; expires_at = 1120 }

abbrev held : Store
held = (codes "old", 900) ∷ (codes "b", 1100) ∷ []

first_ok : (check_key held (use_at 1000 (codes "a"))).0 ≡ ok tt
unfolding check_key get retain text_eq
first_ok = refl

replay_refused_example :
    (check_key
      (run (check_key held (use_at 1000 (codes "a"))).1 (use_at 1050 (codes "c") ∷ []))
      (use_at 1120 (codes "a"))).0
    ≡ err replay_detected
replay_refused_example =
    replay_refused held (use_at 1000 (codes "a")) (use_at 1120 (codes "a"))
      (use_at 1050 (codes "c") ∷ []) first_ok (omega arith, tt) refl (omega arith)

held-Distinct : Distinct held
unfolding get text_eq
held-Distinct = (refl, (refl, tt))

check_key-ok_iff_example :
    ((check_key held (use_at 1000 (codes "b"))).0 ≡ ok tt)
    ↔ ((e : ℕ) → get held (codes "b") ≡ some e → e < 1000)
check_key-ok_iff_example = check_key-ok_iff held (use_at 1000 (codes "b")) held-Distinct

check_file-refines_example :
    ((check_file smooth absent (use_at 1000 (codes "a"))).0
      ≡ (check_key [] (use_at 1000 (codes "a"))).0)
    × ((later : ℕ)
        → 1000 ≤ later
        → SameAt later
            (check_key [] (use_at 1000 (codes "a"))).1
            (map_of (check_file smooth absent (use_at 1000 (codes "a"))).1))
check_file-refines_example =
    check_file-refines [] absent (use_at 1000 (codes "a")) tt tt tt (λ k. refl)
