-- ===== src/Relay/Usage/Tests.antt =====
-- Examples of the usage stores.
use Prim.Native.Nat.{min}
use lockrail.Prelude.{◌-◌, ◌≡◌, ◌≤◌, refl, some, List, [], ◌∷◌, arith, err}
use lockrail.Prelude.Text.{Text, codes, text_eq}
use lockrail.Prelude.Map.{get}
use lockrail.Relay.Disk.{holds, smooth, map_of, load}
use lockrail.Relay.Usage.{Store, Call, current, record_use, granted, attempts}
use lockrail.Relay.Usage.Bound.{granted_lem}
use lockrail.Relay.Usage.File.{
  record_use_file, use_loaded, record_use_file-refines, record_use_file-err,
}
use lockrail.Vault.Error.{usage_limit_exceeded}

abbrev once : Text → Call
once k = record { capability_hash = k; max_uses = some 2 }

abbrev calls : List Call
calls = once (codes "a") ∷ once (codes "b") ∷ once (codes "a") ∷ once (codes "a") ∷ []

abbrev held : Store
held = (codes "a", 1) ∷ []

one_used : current held (codes "a") ≤ 2
unfolding get text_eq
one_used = omega arith

granted_example :
    granted (codes "a") held calls ≡ min (attempts (codes "a") calls) (2 - current held (codes "a"))
granted_example =
    granted_lem (codes "a") held calls 2 (omega arith)
      (λ e. refl, (λ e. refl, (λ e. refl, (λ e. refl, tt)))) one_used

record_use_file-refines_example :
    ((record_use_file smooth (holds held) (codes "a") (some 2)).0
      ≡ (record_use held (codes "a") (some 2)).0)
    × (map_of (record_use_file smooth (holds held) (codes "a") (some 2)).1
        ≡ (record_use held (codes "a") (some 2)).1)
record_use_file-refines_example = record_use_file-refines (holds held) (codes "a") (some 2) tt

refused : (record_use_file smooth (holds held) (codes "a") (some 1)).0 ≡ err usage_limit_exceeded
unfolding record_use_file use_loaded load record_use get text_eq
refused = refl

record_use_file-err_example :
    (record_use_file smooth (holds held) (codes "a") (some 1)).1 ≡ holds held
record_use_file-err_example =
    record_use_file-err smooth (holds held) (codes "a") (some 1) refl refused
